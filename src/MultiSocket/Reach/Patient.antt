-- ===== src/MultiSocket/Reach/Patient.antt =====
-- Sinks that no step finds with a timeout.
use pulsevideo.Base.{ℕ, zero, ◌≡◌, refl, subst, none, List, length, arith}
use pulsevideo.MultiHandle.Types.{Sink, Caps, CapsOps}
use pulsevideo.MultiHandle.Clients.Placed.{
  IsAt, IsIndexed, add_full-IsIndexed, add-IsIndexed, remove-IsIndexed, remove_flush-IsIndexed,
  clear-IsIndexed,
}
use pulsevideo.MultiHandle.Properties.{init}
use pulsevideo.MultiSocket.{Received, Answer}
use pulsevideo.MultiSocket.Class.{multi_socket}
use pulsevideo.MultiSocket.Condition.{Condition, socket_condition, on_timeout}
use pulsevideo.MultiSocket.Condition.Kept.{After, socket_condition_kept}
use pulsevideo.MultiSocket.Reach.{
  Step, setting, new_caps, changing, adding, adding_full, removing, flush, clearing, rendering,
  socket_ready, timing_out,
}
use pulsevideo.MultiSocket.Reach.Kept.{IsSafe, empty-IsSafe, IfReturned-some}
use pulsevideo.MultiSocket.Reach.Safe.{Step-IsSafe}
use pulsevideo.MultiSocket.Reach.Indexed.{
  IsPatient, change_state-IsIndexed, set_property-IsIndexed, render-IsIndexed,
  timeout_walk-IsIndexed, IsIndexed-IsKept,
}

module _ (ops : CapsOps) where
  -- The sinks that some sequence of steps makes of `s`, each taken of a patient sink.
  pub data ReachPatient (s : Sink) : Sink → Type 0 where
    begin : ReachPatient s s
    follow : {t u : Sink} → ReachPatient s t → IsPatient t → Step ops t u → ReachPatient s u

  pub condition-IsIndexed :
      (now : ℕ) (condition : Condition) (reads : List Received) (answers : List Answer) (handle : ℕ)
      (s : Sink)
      → IsSafe s
      → IsIndexed s
      → After (zero ≡ 1) IsIndexed (socket_condition ops now condition reads answers handle s)
  condition-IsIndexed now condition reads answers handle s v h =
      socket_condition_kept ops (zero ≡ 1) IsIndexed (λ t c. IsAt (length t.bufqueue) c)
        (IsIndexed-IsKept ops) now condition reads answers handle s v.linked h

  pub Step-IsIndexed :
      {s t : Sink} → Step ops s t → IsPatient s → IsSafe s → IsIndexed s → IsIndexed t
  unfolding on_timeout
  Step-IsIndexed {s} (setting p v) u w h = set_property-IsIndexed p v s h
  Step-IsIndexed {s} (new_caps c) u w h = h
  Step-IsIndexed {s} (changing now t) u w h = change_state-IsIndexed now t s w h
  Step-IsIndexed {s} (adding now handle) u w h = add-IsIndexed multi_socket now handle s h
  Step-IsIndexed {s} (adding_full now handle m f x g y) u w h =
      add_full-IsIndexed multi_socket now handle m f x g y s h
  Step-IsIndexed {s} (removing now handle) u w h = remove-IsIndexed multi_socket now handle s h
  Step-IsIndexed {s} (flush handle) u w h = remove_flush-IsIndexed handle s h
  Step-IsIndexed {s} (clearing now) u w h = clear-IsIndexed multi_socket now s h
  Step-IsIndexed {s} (rendering now b t e) u w h =
      IfReturned-some IsIndexed _ t (render-IsIndexed now b s w u h) e
  Step-IsIndexed {s} (socket_ready now condition reads answers handle keep t e) u w h =
      subst (After (zero ≡ 1) IsIndexed) e
        (condition-IsIndexed now condition reads answers handle s w h)
  Step-IsIndexed {s} (timing_out now t e) u w h =
      IfReturned-some IsIndexed _ t (timeout_walk-IsIndexed now s.clients s h) e

  -- Both, of each sink on the way.
  ReachPatient-IsIndexed :
      {s t : Sink} → ReachPatient s t → IsSafe s → IsIndexed s → IsSafe t × IsIndexed t
  ReachPatient-IsIndexed begin v h = (v, h)
  ReachPatient-IsIndexed (follow r u st) v h =
      let before = ReachPatient-IsIndexed r v h in
      (Step-IsSafe ops st before.0, Step-IsIndexed st u before.0 before.1)

  -- Whatever sequence of settings, changes of state, calls of the application, buffers and ready
  -- sockets a new sink goes through, as long as none of them finds it with a timeout or 2 ^ 31 - 1
  -- buffers, the next callback for a ready socket returns, whatever the socket answers: it reads
  -- nothing outside the queue.
  pub socket_condition-ReachPatient :
      (caps : Caps) (next_ptr : ℕ) (t : Sink)
      → ReachPatient (init caps next_ptr) t
      → (now : ℕ) (condition : Condition) (reads : List Received) (answers : List Answer)
        (handle : ℕ)
      → ¬ (socket_condition ops now condition reads answers handle t ≡ none)
  unfolding init
  socket_condition-ReachPatient caps next_ptr t r now condition reads answers handle e =
      let both = ReachPatient-IsIndexed r (empty-IsSafe (init caps next_ptr) refl refl) tt in
      let wrong : zero ≡ 1 =
        subst (After (zero ≡ 1) IsIndexed) e
          (condition-IsIndexed now condition reads answers handle t both.0 both.1) in
      omega (arith, wrong)
