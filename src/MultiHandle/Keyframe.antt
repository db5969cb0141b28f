-- ===== src/MultiHandle/Keyframe.antt =====
-- gst/tcp/gstmultihandlesink.c: is_sync_frame and find_syncframe, the search for a key frame in
-- the queue. Index 0 is the newest buffer.
pub mod Search
use pulsevideo.Base.{
  ℕ, zero, suc, ◌+◌, ◌≤◌, ◌<◌, ◌≡◌, Bool, true, false, not, ◌&&◌, if◌then◌else◌, Option, none, some,
  List, length, get_elem?, ℤ, pos, negsuc, minus_one, ◌+ℤ◌, ◌≤ℤ◌, ◌<ℤ◌, leb_ℤ, ltb_ℤ, pos_part,
}
use pulsevideo.MultiHandle.Types.{Buffer}

pub is_sync_frame : Buffer → Bool
is_sync_frame b = if b.delta_unit then false else if not b.header then true else false

-- `g_array_index (queue, i)` followed by the test; out of range there is no buffer to test.
pub sync_at : List Buffer → ℕ → Bool
sync_at q i = elim (get_elem? q i) [ none ↦ false | some b ↦ is_sync_frame b ]

-- for (i = idx; i >= 0 && i < len; i += direction), on fuel.
pub scan : ℕ → List Buffer → ℤ → ℤ → ℤ
scan zero q i direction = minus_one
scan (suc fuel) q i direction =
    let further = scan fuel q (i +ℤ direction) direction in
    if leb_ℤ (pos 0) i && ltb_ℤ i (pos (length q))
    then if sync_at q (pos_part i) then i else further
    else minus_one

-- The loop makes at most one round for each buffer, and one more to see that it is over.
pub find_syncframe : List Buffer → ℤ → ℤ → ℤ
find_syncframe q idx direction = scan (length q + 1) q idx direction

pub find_next_syncframe : List Buffer → ℤ → ℤ
find_next_syncframe q idx = find_syncframe q idx (pos 1)

pub find_prev_syncframe : List Buffer → ℤ → ℤ
find_prev_syncframe q idx = find_syncframe q idx minus_one
