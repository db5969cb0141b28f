-- ===== src/MultiHandle/Queue/Calm.antt =====
-- Neither does the streaming thread.
use pulsevideo.Base.{ℕ, ◌+◌, ◌≡◌, refl, ap, ◌∙◌, if_cases, length, ℤ, pos, arith}
use pulsevideo.MultiHandle.Types.{Client, Sink, Buffer}
use pulsevideo.MultiHandle.Class.{SinkClass}
use pulsevideo.MultiHandle.Clients.Calm.{
  IsCalm, KeepsQuiet, update-IsCalm, remove_client_link-IsCalm,
}
use pulsevideo.MultiHandle.Queue.{
  Usage, recover, advance, keep_client, slow_client, visit_node, visit_clients, trim_queue, prepend,
  queue_buffer,
}
use pulsevideo.MultiHandle.Queue.Walk.{visit_node_cases, rounds_end}

advance-KeepsQuiet : (s : Sink) (soft_max : ℤ) → KeepsQuiet (advance s soft_max)
unfolding advance recover
advance-KeepsQuiet s soft_max c =
    if_cases (λ (d : Client). d.currently_removing ≡ c.currently_removing) _ (λ t. refl) (λ f. refl)

module _ (k : SinkClass) where
  keep_client-KeepsQuiet : (s : Sink) → KeepsQuiet (keep_client k s)
  unfolding keep_client
  keep_client-KeepsQuiet s c =
      if_cases (λ (d : Client). d.currently_removing ≡ c.currently_removing) _
        (λ t. ap (λ (d : Client). d.currently_removing) (k.hash_adding_lem s c)) (λ f. refl)

  slow_client-KeepsQuiet : (s : Sink) (soft_max : ℤ) → KeepsQuiet (slow_client k s soft_max)
  unfolding slow_client
  slow_client-KeepsQuiet s soft_max d = advance-KeepsQuiet s soft_max d

  visit_node-IsCalm :
      (now : ℕ) (max soft_max : ℤ) (p : ℕ) (u : Usage)
      → IsCalm u.sink
      → IsCalm (visit_node k now max soft_max p u).sink
  visit_node-IsCalm now max soft_max p u h =
      visit_node_cases k now max soft_max (λ (v : Usage). IsCalm v.sink) p u (λ n. h)
        (λ c e same t. remove_client_link-IsCalm k now c.ptr _ (
          update-IsCalm c.ptr (slow_client k u.sink soft_max) u.sink
            (slow_client-KeepsQuiet u.sink soft_max) h))
        (λ c e same f.
          update-IsCalm c.ptr (λ d. keep_client k u.sink (advance u.sink soft_max d)) u.sink
            (λ d.
              keep_client-KeepsQuiet u.sink (advance u.sink soft_max d)
              ∙ advance-KeepsQuiet u.sink soft_max d)
            h)

  pub queue_buffer-IsCalm :
      (now : ℕ) (b : Buffer) (s : Sink) → IsCalm s → IsCalm (queue_buffer k now b s)
  unfolding queue_buffer visit_clients trim_queue
  queue_buffer-IsCalm now b s h =
      rounds_end k now _ _ (λ ps (u : Usage). IsCalm u.sink)
        (λ p ps u. visit_node-IsCalm now _ _ p u) (λ ps u i. i) (length s.clients + 1)
        (record { usage = pos 0; sink = prepend b s }) (omega arith) h
