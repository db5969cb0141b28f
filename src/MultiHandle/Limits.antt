-- ===== src/MultiHandle/Limits.antt =====
-- gst/tcp/gstmultihandlesink.c: get_buffers_max, find_limits, assign_value and count_burst_unit,
-- which turn limits in buffers, bytes or nanoseconds into positions of the queue.
pub mod Range
pub mod Bytes
pub mod None
use pulsevideo.Base.{
  ℕ, zero, suc, ◌+◌, ◌-◌, ◌≡◌, Bool, true, false, not, ◌&&◌, if◌then◌else◌, ◌==◌, leb, List, [],
  ◌∷◌, length, ℤ, pos, minus_one, eqb_ℤ, leb_ℤ, ltb_ℤ, to_u64, to_gint, to_gint64, sub_u64,
  add_size_gint,
}
use pulsevideo.MultiHandle.Types.{
  Buffer, size, timestamp_is_valid, clock_time_none, Format, Sink, buffers, time, bytes,
}

-- The loop of the TIME case, from index `i` on. At the end of the queue `i + 1` is `len + 1`.
pub time_scan : ℤ → ℕ → ℕ → List Buffer → ℤ
time_scan limit first i [] = pos (i + 1)
time_scan limit first i (b ∷ bs) =
    let start = if timestamp_is_valid b && (first == clock_time_none) then b.timestamp else first in
    let diff = to_gint64 (sub_u64 start b.timestamp) in
    let rest = time_scan limit start (i + 1) bs in
    if timestamp_is_valid b && ltb_ℤ limit diff then pos (i + 1) else rest

-- The loop of the BYTES case.
pub bytes_scan : ℤ → ℤ → ℕ → List Buffer → ℤ
bytes_scan limit acc i [] = pos (i + 1)
bytes_scan limit acc i (b ∷ bs) =
    let acc' = add_size_gint acc (size b) in
    let rest = bytes_scan limit acc' (i + 1) bs in if ltb_ℤ limit acc' then pos (i + 1) else rest

-- How many buffers of the queue make up `limit` units, one more than the queue holds if it has
-- too few. A limit in buffers is returned as it is, cut to a gint.
pub get_buffers_max : Format → List Buffer → ℤ → ℤ
get_buffers_max time q limit = time_scan limit clock_time_none 0 q
get_buffers_max bytes q limit = bytes_scan limit (pos 0) 0 q
get_buffers_max _ q limit = to_gint (to_u64 limit)

-- The variables of the loop of find_limits.
pub record Search : Type 0 where
  pub first : ℕ
  pub total : ℤ
  pub bytes_min : ℤ
  pub time_min : ℤ
  pub min_idx : ℤ
  pub max_idx : ℤ
  pub max_hit : Bool
  pub result : Bool

-- if (bytes_min == -1 && time_min == -1 && *min_idx == -1) *min_idx = MAX (i - 1, 0);
pub check_min : ℕ → Search → Search
check_min i s =
    if eqb_ℤ s.bytes_min minus_one && eqb_ℤ s.time_min minus_one && eqb_ℤ s.min_idx minus_one
    then record s { min_idx = pos (i - 1) }
    else s

-- The test of the timestamp: `first - time` is taken as a guint64.
pub count_time : ℤ → Buffer → Search → Search
count_time time_max b s =
    let first = if s.first == clock_time_none then b.timestamp else s.first in
    let age = sub_u64 first b.timestamp in
    if timestamp_is_valid b
    then record s {
      first = first;
      time_min =
          if not (eqb_ℤ s.time_min minus_one) && leb (to_u64 s.time_min) age
          then minus_one
          else s.time_min;
      max_hit =
          if not (eqb_ℤ time_max minus_one) && leb (to_u64 time_max) age then true else s.max_hit;
    }
    else s

-- The tests of the number of bytes.
pub count_bytes : ℤ → Buffer → Search → Search
count_bytes bytes_max b s =
    let total = add_size_gint s.total (size b) in
    record s {
      total = total;
      bytes_min =
          if not (eqb_ℤ s.bytes_min minus_one) && leb_ℤ s.bytes_min total
          then minus_one
          else s.bytes_min;
      max_hit =
          if not (eqb_ℤ bytes_max minus_one) && leb_ℤ bytes_max total then true else s.max_hit;
    }

-- The do loop, at index `i` with the rest of the queue.
pub limits_loop : ℤ → ℤ → ℕ → Search → List Buffer → Search
limits_loop bytes_max time_max i s [] = s
limits_loop bytes_max time_max i s (b ∷ bs) =
    let s' = check_min i s in
    let rest =
      limits_loop bytes_max time_max (i + 1) (count_bytes bytes_max b (count_time time_max b s'))
        bs in
    if s'.max_hit
    then record s' { max_idx = pos (i - 1); result = not (eqb_ℤ s'.min_idx minus_one) }
    else rest

pub record Limits : Type 0 where
  pub min_idx : ℤ
  pub max_idx : ℤ
  pub result : Bool

-- The limits that a caller of find_limits gives, -1 for those that do not count.
pub record Bounds : Type 0 where
  pub bytes_min : ℤ
  pub buffers_min : ℤ
  pub time_min : ℤ
  pub bytes_max : ℤ
  pub buffers_max : ℤ
  pub time_max : ℤ

abbrev pub start : Bounds → Search
start l = record {
  first = clock_time_none;
  total = pos 0;
  bytes_min = l.bytes_min;
  time_min = l.time_min;
  min_idx = minus_one;
  max_idx = minus_one;
  max_hit = false;
  result = false;
}

-- What the loop left unset: `max_idx` becomes the last index, `min_idx` becomes `max_idx`.
pub finish : ℕ → Search → Limits
finish len s =
    let max_idx = if eqb_ℤ s.max_idx minus_one then pos (len - 1) else s.max_idx in
    record {
      min_idx = if eqb_ℤ s.min_idx minus_one then max_idx else s.min_idx;
      max_idx = max_idx;
      result = s.result;
    }

-- The source asserts that the queue holds a buffer, and is called with such a queue only.
pub find_limits : List Buffer → Bounds → Limits
find_limits q l =
    let len = length q in
    if not (eqb_ℤ l.buffers_min minus_one) && ltb_ℤ (pos len) l.buffers_min
    then record { min_idx = pos (len - 1); max_idx = pos (len - 1); result = false }
    else finish len (limits_loop l.bytes_max l.time_max 0 (start l) q)

-- A limit for each unit, as assign_value leaves it.
pub record Assigned : Type 0 where
  pub in_bytes : ℤ
  pub in_buffers : ℤ
  pub in_time : ℕ

pub assign_value : Format → ℕ → Assigned → Assigned
assign_value buffers v a = record a { in_buffers = to_gint v }
assign_value time v a = record a { in_time = v }
assign_value bytes v a = record a { in_bytes = to_gint v }
assign_value _ v a = a

abbrev pub unassigned : Assigned
unassigned = record { in_bytes = minus_one; in_buffers = minus_one; in_time = clock_time_none }

-- The limits of a burst, those of the unused units left at -1.
pub burst_bounds : Format → ℕ → Format → ℕ → Bounds
burst_bounds min_format min_value max_format max_value =
    let low = assign_value min_format min_value unassigned in
    let high = assign_value max_format max_value unassigned in
    record {
      bytes_min = low.in_bytes;
      buffers_min = low.in_buffers;
      time_min = to_gint64 low.in_time;
      bytes_max = high.in_bytes;
      buffers_max = high.in_buffers;
      time_max = to_gint64 high.in_time;
    }

pub count_burst_unit : List Buffer → Format → ℕ → Format → ℕ → Limits
count_burst_unit q min_format min_value max_format max_value =
    find_limits q (burst_bounds min_format min_value max_format max_value)
