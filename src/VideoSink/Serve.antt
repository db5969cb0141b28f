-- ===== src/VideoSink/Serve.antt =====
-- The multisocketsink of a pulsevideosink, which nobody but gst_pulsevideo_sink_init configures.
use pulsevideo.Base.{
  ℕ, zero, ◌≡◌, ◌≤◌, refl, subst, Bool, true, false, not, ◌&&◌, if◌then◌else◌, if_cases, none, List,
  [], length, arith,
}
use pulsevideo.MultiHandle.Types.{Sink, Buffer, Caps, CapsOps, slow}
use pulsevideo.MultiHandle.Properties.{init, set_property}
use pulsevideo.MultiHandle.Clients.{update}
use pulsevideo.MultiHandle.Clients.Linked.{IsLinked-same}
use pulsevideo.MultiHandle.Clients.Placed.{IsIndexed}
use pulsevideo.MultiHandle.Clients.Served.{
  IsServing, remove_client_link-IsServing, add_full-IsServing, add-IsServing, remove-IsServing,
  clear-IsServing, remove_flush-IsServing,
}
use pulsevideo.MultiHandle.Queue.{render}
use pulsevideo.MultiHandle.Queue.Served.{queue_buffer-IsServing}
use pulsevideo.MultiSocket.{Received, Answer, write_loop}
use pulsevideo.MultiSocket.Class.{multi_socket}
use pulsevideo.MultiSocket.Condition.{Condition, socket_condition, on_timeout}
use pulsevideo.MultiSocket.Condition.Kept.{After, IsKept, socket_condition_kept}
use pulsevideo.MultiSocket.Condition.Linked.{Anything, Wrote-Anything}
use pulsevideo.MultiSocket.Lifecycle.{
  Transition, null_to_ready, ready_to_null, other_transition, change_state, start, start_pre, stop,
  stop_post,
}
use pulsevideo.MultiSocket.Reach.{
  Step, setting, new_caps, changing, adding, adding_full, removing, flush, clearing, rendering,
  socket_ready, timing_out,
}
use pulsevideo.MultiSocket.Reach.Kept.{
  IsSafe, empty-IsSafe, IfReturned, IfReturned-some, timeout_walk_kept,
}
use pulsevideo.MultiSocket.Reach.Safe.{Step-IsSafe}
use pulsevideo.MultiSocket.Reach.Indexed.{IsPatient}
use pulsevideo.MultiSocket.Reach.Patient.{Step-IsIndexed, condition-IsIndexed}
use pulsevideo.VideoSink.{socket_sink}

change_state-IsServing :
    (now : ℕ) (t : Transition) (s : Sink) → IsServing s → IsServing (change_state now t s)
unfolding change_state start start_pre stop stop_post
change_state-IsServing now null_to_ready s h = if_cases IsServing s.is_open (λ t. h) (λ f. h)
change_state-IsServing now other_transition s h = h
change_state-IsServing now ready_to_null s h =
    let cleared = clear-IsServing multi_socket now (record s { running = false }) h in
    if_cases IsServing (not s.is_open) (λ t. h) (λ f. (cleared.0, omega arith))

render-IsServing :
    (now : ℕ) (b : Buffer) (s : Sink)
    → IsSafe s
    → IsServing s
    → IfReturned IsServing (render multi_socket now b s)
unfolding render IfReturned
render-IsServing now b s v h =
    if_cases (IfReturned IsServing) (not s.is_open) (λ t. tt)
      (λ f.
        if_cases (IfReturned IsServing) b.header (λ t. h)
          (λ g.
            queue_buffer-IsServing multi_socket now b
              (record s {
                streamheader =
                    if b.header && not s.previous_buffer_in_caps then [] else s.streamheader;
                previous_buffer_in_caps = b.header;
              })
              (IsLinked-same refl refl refl v.linked) h))

IsServing-IsKept : (ops : CapsOps) → IsKept ops (Unit {0}) IsServing Anything
IsServing-IsKept ops = record {
  put = λ s c d h e k q. h;
  gone = remove_client_link-IsServing multi_socket;
  counted = λ n s h. h;
  counted_for = λ n s d q. tt;
  marked = λ s c st h e. tt;
  was_read = λ s c reads h e. tt;
  was_written = λ now answers s c h e. Wrote-Anything s (write_loop ops now s answers c);
}

module _ (ops : CapsOps) where
  -- A write of a property.
  unfoldable pub is_setting : {s t : Sink} → Step ops s t → Bool
  is_setting (setting p v) = true
  is_setting (new_caps c) = false
  is_setting (changing now t) = false
  is_setting (adding now handle) = false
  is_setting (adding_full now handle m f x g y) = false
  is_setting (removing now handle) = false
  is_setting (flush handle) = false
  is_setting (clearing now) = false
  is_setting (rendering now b t e) = false
  is_setting (socket_ready now condition reads answers handle keep t e) = false
  is_setting (timing_out now t e) = false

  -- The sinks that some sequence of steps makes of `s`, none of them a write of a property.
  pub data Serving (s : Sink) : Sink → Type 0 where
    unserved : Serving s s
    serve : {t u : Sink} → Serving s t → (st : Step ops t u) → is_setting st ≡ false → Serving s u

  Step-IsServing :
      {s t : Sink} (st : Step ops s t)
      → is_setting st ≡ false
      → IsSafe s
      → IsServing s
      → IsServing t
  unfolding is_setting on_timeout
  Step-IsServing {s} (setting p v) f w h = cc f
  Step-IsServing {s} (new_caps c) f w h = h
  Step-IsServing {s} (changing now t) f w h = change_state-IsServing now t s h
  Step-IsServing {s} (adding now handle) f w h = add-IsServing multi_socket now handle s h
  Step-IsServing {s} (adding_full now handle m b x g y) f w h =
      add_full-IsServing multi_socket now handle m b x g y s h
  Step-IsServing {s} (removing now handle) f w h = remove-IsServing multi_socket now handle s h
  Step-IsServing {s} (flush handle) f w h = remove_flush-IsServing handle s h
  Step-IsServing {s} (clearing now) f w h = clear-IsServing multi_socket now s h
  Step-IsServing {s} (rendering now b t e) f w h =
      IfReturned-some IsServing _ t (render-IsServing now b s w h) e
  Step-IsServing {s} (socket_ready now condition reads answers handle keep t e) f w h =
      subst (After (Unit {0}) IsServing) e (
        socket_condition_kept ops (Unit {0}) IsServing Anything (IsServing-IsKept ops) now condition
          reads answers handle s w.linked h)
  Step-IsServing {s} (timing_out now t e) f w h =
      IfReturned-some IsServing _ t
        (timeout_walk_kept IsServing
          (λ n p u v.
            remove_client_link-IsServing multi_socket n p
              (update p (λ d. record d { status = slow }) u) v)
          now s.clients s h)
        e

  -- A sink that serves has no timeout, and room for more buffers.
  IsServing-IsPatient : (s : Sink) → IsServing s → IsPatient s
  IsServing-IsPatient s h =
      let few = h.1 in record { no_timeout = h.0.2; room = omega (arith, few) }

  Serving-all :
      {s t : Sink}
      → Serving s t
      → IsSafe s
      → IsServing s
      → IsIndexed s
      → IsSafe t × IsServing t × IsIndexed t
  Serving-all unserved v h i = (v, h, i)
  Serving-all (serve {t} r st f) v h i =
      let before = Serving-all r v h i in
      (
        Step-IsSafe ops st before.0,
        Step-IsServing st f before.0 before.1,
        Step-IsIndexed ops st (IsServing-IsPatient t before.1) before.0 before.2,
      )

  -- Whatever sequence of changes of state, calls, buffers, ready sockets and timeouts the
  -- multisocketsink of a pulsevideosink goes through, as long as every one of them returns and none
  -- writes a property, its queue holds at most two buffers, and the next callback for a ready socket
  -- returns, whatever the socket answers: it reads nothing outside the queue.
  pub socket_sink-Serving :
      (caps : Caps) (next_ptr : ℕ) (t : Sink)
      → Serving (socket_sink caps next_ptr) t
      → (now : ℕ) (condition : Condition) (reads : List Received) (answers : List Answer)
        (handle : ℕ)
      → (length t.bufqueue ≤ 2)
        × ¬ (socket_condition ops now condition reads answers handle t ≡ none)
  unfolding socket_sink set_property init
  socket_sink-Serving caps next_ptr t r now condition reads answers handle =
      let s = socket_sink caps next_ptr in
      let all =
        Serving-all r (empty-IsSafe s refl refl)
          ((refl, refl, refl, refl, refl, refl, refl), omega arith) tt in
      (
        all.1.1,
        λ e.
            let wrong : zero ≡ 1 =
              subst (After (zero ≡ 1) IsIndexed) e
                (condition-IsIndexed ops now condition reads answers handle t all.0 all.2) in
            omega (arith, wrong),
      )
