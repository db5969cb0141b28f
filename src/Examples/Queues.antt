-- ===== src/Examples/Queues.antt =====
-- Examples of the searches in the queue.
use pulsevideo.Base.{◌-◌, ◌≡◌, refl, true, length, min, pos, minus_one, arith}
use pulsevideo.MultiHandle.Types.{Client, next_keyframe, resync_keyframe}
use pulsevideo.MultiHandle.Keyframe.{find_next_syncframe}
use pulsevideo.MultiHandle.Keyframe.Search.{
  FirstFrom, LastUpTo, IsKeyframePosition, find_next_syncframe-FirstFrom,
}
use pulsevideo.MultiHandle.Limits.{Bounds, find_limits}
use pulsevideo.MultiHandle.Limits.Bytes.{reach, total_size, find_limits-bytes}
use pulsevideo.MultiHandle.Position.{new_client_position, recover_by}
use pulsevideo.MultiHandle.Position.Start.{
  IsPlaced, new_client_position-IsPlaced, new_client_position-IsKeyframePosition,
}
use pulsevideo.MultiHandle.Position.Recover.{recover_by-LastUpTo}
use pulsevideo.Examples.{queue, old_client}

find_next_syncframe-FirstFrom_example : FirstFrom queue 0 (find_next_syncframe queue (pos 0))
find_next_syncframe-FirstFrom_example = find_next_syncframe-FirstFrom queue 0

-- A burst of at least four bytes.
abbrev four_bytes : Bounds
four_bytes = record {
  bytes_min = pos 4;
  buffers_min = minus_one;
  time_min = minus_one;
  bytes_max = minus_one;
  buffers_max = minus_one;
  time_max = minus_one;
}

find_limits-bytes_example : (find_limits queue four_bytes).min_idx ≡ pos (reach 4 0 0 queue)
unfolding total_size
find_limits-bytes_example =
    find_limits-bytes queue four_bytes 4 (omega arith) (omega arith) refl refl refl refl refl

abbrev waiting_for_keyframe : Client
waiting_for_keyframe = record old_client { sync_method = next_keyframe; new_connection = true }

new_client_position-IsPlaced_example :
    IsPlaced queue waiting_for_keyframe (new_client_position queue waiting_for_keyframe)
new_client_position-IsPlaced_example =
    new_client_position-IsPlaced queue waiting_for_keyframe 1 refl (omega arith)

new_client_position-IsKeyframePosition_example :
    IsKeyframePosition queue (new_client_position queue waiting_for_keyframe).0
new_client_position-IsKeyframePosition_example =
    new_client_position-IsKeyframePosition queue waiting_for_keyframe 1 refl (omega arith) tt

recover_by-LastUpTo_example :
    LastUpTo queue
      (min (length queue - 1) (2 - 1))
      (recover_by resync_keyframe queue (pos 2) old_client)
recover_by-LastUpTo_example =
    recover_by-LastUpTo queue 2 old_client (omega arith) (omega arith) (omega arith) (omega arith)

-- A buffer of three memories.
