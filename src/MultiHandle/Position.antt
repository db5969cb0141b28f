-- ===== src/MultiHandle/Position.antt =====
-- gst/tcp/gstmultihandlesink.c: gst_multi_handle_sink_new_client_position, which says where a new
-- client starts in the queue, and gst_multi_handle_sink_recover_client, which moves a lagging one.
pub mod Start
pub mod Recover
pub mod Key
use pulsevideo.Base.{
  ℕ, zero, suc, ◌+◌, ◌-◌, ◌≡◌, Bool, true, false, not, ◌&&◌, if◌then◌else◌, List, length, min, ℤ,
  pos, negsuc, minus_one, ◌-ℤ◌, eqb_ℤ, leb_ℤ, ltb_ℤ, max_ℤ, to_u32, to_gint,
}
use pulsevideo.MultiHandle.Types.{
  Buffer, Client, Sink, SyncMethod, latest, next_keyframe, latest_keyframe, burst, burst_keyframe,
  burst_with_keyframe, RecoverPolicy, no_recovery, resync_latest, resync_soft_limit,
  resync_keyframe,
}
use pulsevideo.MultiHandle.Keyframe.{sync_at, find_next_syncframe, find_prev_syncframe}
use pulsevideo.MultiHandle.Limits.{Limits, count_burst_unit, get_buffers_max}

-- The burst limits of a client.
abbrev pub client_limits : List Buffer → Client → Limits
client_limits q c =
    count_burst_unit q c.burst_min_format c.burst_min_value c.burst_max_format c.burst_max_value

-- if (max != -1 && max <= min) MAX (max - 1, 0) else min
pub capped : Limits → ℤ
capped l =
    if not (eqb_ℤ l.max_idx minus_one) && leb_ℤ l.max_idx l.min_idx
    then max_ℤ (l.max_idx -ℤ pos 1) (pos 0)
    else l.min_idx

-- next_syncframe != -1 && next_syncframe < max_idx
abbrev pub between : ℤ → Limits → Bool
between p l = not (eqb_ℤ p minus_one) && ltb_ℤ p l.max_idx

-- One case of the switch for each sync method.
pub position_by : SyncMethod → List Buffer → Client → ℤ × Client
position_by latest q c = (c.bufpos, c)
position_by next_keyframe q c =
    let result = find_prev_syncframe q c.bufpos in
    if eqb_ℤ result minus_one then (result, record c { bufpos = minus_one }) else (result, c)
position_by latest_keyframe q c =
    let result = find_next_syncframe q (pos 0) in
    if eqb_ℤ result minus_one
    then (result, record c { bufpos = minus_one; sync_method = next_keyframe })
    else (result, c)
position_by burst q c = (capped (client_limits q c), c)
position_by burst_keyframe q c =
    let l = client_limits q c in
    let next_syncframe = find_next_syncframe q l.min_idx in
    let prev_syncframe = find_prev_syncframe q l.min_idx in
    if between next_syncframe l
    then (next_syncframe, c)
    else if not (eqb_ℤ prev_syncframe minus_one)
    then (prev_syncframe, c)
    else (minus_one, record c { bufpos = minus_one; sync_method = next_keyframe })
position_by burst_with_keyframe q c =
    let l = client_limits q c in
    let next_syncframe = find_next_syncframe q l.min_idx in
    if between next_syncframe l then (next_syncframe, c) else (capped l, c)

-- The position at which the client starts, -1 if it has to wait, and the client as it is left.
pub new_client_position : List Buffer → Client → ℤ × Client
new_client_position q c = position_by c.sync_method q c

-- while (newbufpos >= 0) { if (is_sync_frame (buf)) break; newbufpos--; }
pub down_to_sync : List Buffer → ℕ → ℤ
down_to_sync q zero = if sync_at q 0 then pos 0 else minus_one
down_to_sync q (suc n) =
    let rest = down_to_sync q n in if sync_at q (suc n) then pos (suc n) else rest

pub sync_below : List Buffer → ℤ → ℤ
sync_below q (pos n) = down_to_sync q n
sync_below q (negsuc n) = negsuc n

-- MIN (sink->bufqueue->len - 1, get_buffers_max (...) - 1), a comparison of guints.
pub last_to_keep : List Buffer → ℤ → ℤ
last_to_keep q soft_max =
    to_gint (min (to_u32 (pos (length q) -ℤ pos 1)) (to_u32 (soft_max -ℤ pos 1)))

pub recover_by : RecoverPolicy → List Buffer → ℤ → Client → ℤ
recover_by no_recovery q soft_max c = c.bufpos
recover_by resync_latest q soft_max c = minus_one
recover_by resync_soft_limit q soft_max c = soft_max
recover_by resync_keyframe q soft_max c = sync_below q (last_to_keep q soft_max)

-- The position after recovery. `get_buffers_max` reads only the queue and the limit.
unfoldable pub recover_client : Sink → Client → ℤ
recover_client s c =
    recover_by s.recover_policy s.bufqueue
      (get_buffers_max s.unit_format s.bufqueue s.units_soft_max) c
