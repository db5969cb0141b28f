-- ===== src/Examples/Reached.antt =====
-- Examples of what a new sink goes through.
use pulsevideo.Base.{◌≡◌, option_case, refl, true, false, none, [], ◌∷◌, pos, length, ◌≤◌, arith}
use pulsevideo.MultiHandle.Types.{Sink, resync_latest, latest}
use pulsevideo.MultiHandle.Store.{hash_lookup}
use pulsevideo.MultiHandle.Clients.{add, add_full, insert_client, wrong_limits}
use pulsevideo.MultiHandle.Properties.{
  init, set_property, prop_buffers_max, prop_buffers_soft_max, prop_recover_policy,
  prop_sync_method,
}
use pulsevideo.MultiHandle.Queue.{render}
use pulsevideo.MultiSocket.{accepted, would_block}
use pulsevideo.MultiSocket.Class.{multi_socket}
use pulsevideo.MultiSocket.Condition.{Condition, socket_condition}
use pulsevideo.MultiSocket.Lifecycle.{null_to_ready, change_state, start, start_pre}
use pulsevideo.MultiSocket.Reach.{here, next, setting, changing, adding, rendering}
use pulsevideo.MultiSocket.Reach.Kept.{IsSafe}
use pulsevideo.MultiSocket.Reach.Safe.{init-IsSafe}
use pulsevideo.MultiSocket.Reach.Patient.{begin, follow, socket_condition-ReachPatient}
use pulsevideo.VideoSink.{socket_sink}
use pulsevideo.VideoSink.Serve.{is_setting, unserved, serve, socket_sink-Serving}
use pulsevideo.Examples.{key, any_caps, video_caps}

-- A new sink, and the same once it is started and has a client.
abbrev new_sink : Sink
new_sink = init video_caps 1

init-IsSafe_example : IsSafe (add multi_socket 7 10 (change_state 5 null_to_ready new_sink))
init-IsSafe_example =
    init-IsSafe any_caps video_caps 1
      (add multi_socket 7 10 (change_state 5 null_to_ready new_sink))
      (next (next here (changing 5 null_to_ready)) (adding 7 10))

-- The sink of a pulsevideosink, once it is started and has a client,
abbrev serving : Sink
serving = add multi_socket 7 10 (change_state 5 null_to_ready (socket_sink video_caps 1))

-- and with a key frame in the queue.
abbrev fed : Sink
fed = option_case (render multi_socket 8 key serving) serving (λ t. t)

-- The socket takes the key frame's first byte, and then no more.
abbrev writable : Condition
writable = record { err = false; hup = false; input = false; pri = false; output = true }

socket_condition-ReachPatient_example :
    ¬ (socket_condition any_caps 9 writable [] (accepted 1 ∷ would_block ∷ []) 10 fed ≡ none)
unfolding render init set_property socket_sink change_state start start_pre add add_full
    insert_client wrong_limits hash_lookup
socket_condition-ReachPatient_example =
    socket_condition-ReachPatient any_caps video_caps 1 fed
      (follow
        (follow
          (follow
            (follow
              (follow
                (follow
                  (follow begin (record { no_timeout = refl; room = omega arith })
                    (setting prop_buffers_max (pos 2)))
                  (record { no_timeout = refl; room = omega arith })
                  (setting prop_buffers_soft_max (pos 1)))
                (record { no_timeout = refl; room = omega arith })
                (setting prop_recover_policy resync_latest))
              (record { no_timeout = refl; room = omega arith }) (setting prop_sync_method latest))
            (record { no_timeout = refl; room = omega arith }) (changing 5 null_to_ready))
          (record { no_timeout = refl; room = omega arith }) (adding 7 10))
        (record { no_timeout = refl; room = omega arith }) (rendering 8 key fed refl))
      9 writable [] (accepted 1 ∷ would_block ∷ []) 10

socket_sink-Serving_example :
    (length fed.bufqueue ≤ 2)
    × ¬ (socket_condition any_caps 9 writable [] (accepted 1 ∷ would_block ∷ []) 10 fed ≡ none)
unfolding render is_setting init set_property socket_sink change_state start start_pre add add_full
    insert_client wrong_limits hash_lookup
socket_sink-Serving_example =
    socket_sink-Serving any_caps video_caps 1 fed
      (serve (serve (serve unserved (changing 5 null_to_ready) refl) (adding 7 10) refl)
        (rendering 8 key fed refl) refl)
      9 writable [] (accepted 1 ∷ would_block ∷ []) 10
