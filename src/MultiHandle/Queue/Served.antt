-- ===== src/MultiHandle/Queue/Served.antt =====
-- The queue of a sink with a hard limit of two buffers.
use pulsevideo.Base.{ℕ, ap, length, pos, ◌+◌, arith, ℤ}
use pulsevideo.MultiHandle.Types.{Sink, Buffer}
use pulsevideo.MultiHandle.Class.{SinkClass}
use pulsevideo.MultiHandle.Clients.{update}
use pulsevideo.MultiHandle.Clients.Linked.{IsLinked}
use pulsevideo.MultiHandle.Clients.Served.{HasLimits, IsServing, remove_client_link-HasLimits}
use pulsevideo.MultiHandle.Queue.{
  Usage, slow_client, visit_node, visit_clients, prepend, trim_queue, queue_buffer, wants_sync,
}
use pulsevideo.MultiHandle.Queue.Walk.{visit_node_cases, rounds_end}
use pulsevideo.MultiHandle.Queue.Bounded.{queue_buffer-length}

module _ (k : SinkClass) where
  visit_node-HasLimits :
      (now : ℕ) (max soft_max : ℤ) (p : ℕ) (u : Usage)
      → HasLimits u.sink
      → HasLimits (visit_node k now max soft_max p u).sink
  visit_node-HasLimits now max soft_max p u h =
      visit_node_cases k now max soft_max (λ (v : Usage). HasLimits v.sink) p u (λ n. h)
        (λ c e same t.
          remove_client_link-HasLimits k now c.ptr
            (update c.ptr (slow_client k u.sink soft_max) u.sink) h)
        (λ c e same f. h)

  pub queue_buffer-IsServing :
      (now : ℕ) (b : Buffer) (s : Sink)
      → IsLinked s
      → IsServing s
      → IsServing (queue_buffer k now b s)
  unfolding queue_buffer visit_clients trim_queue
  queue_buffer-IsServing now b s v h =
      let limits = h.0 in
      (
        rounds_end k now _ _ (λ ps (u : Usage). HasLimits u.sink)
            (λ p ps u. visit_node-HasLimits now _ _ p u) (λ ps u i. i) (length s.clients + 1)
            (record { usage = pos 0; sink = prepend b s }) (omega arith) limits,
        let bound =
              queue_buffer-length k now b s 1 v
                (record {
                  no_bytes = limits.3;
                  no_buffers = limits.4;
                  no_time = limits.5;
                  no_sync = ap wants_sync limits.6;
                })
                limits.1 limits.0 (omega arith) in
            bound,
      )
