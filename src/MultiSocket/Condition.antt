-- ===== src/MultiSocket/Condition.antt =====
-- gst/tcp/gstmultisocketsink.c: the callbacks of the sink's main loop, a ready socket and the
-- timeout.
pub mod Timeout
pub mod Key
pub mod Kept
pub mod Linked
pub mod Inside
pub mod Write
pub mod Result
use pulsevideo.Base.{
  ℕ, Bool, true, false, not, ◌&&◌, ◌||◌, if◌then◌else◌, option_case, ltb, Option, none, some, List,
  [], ◌∷◌, length, sub_u64, add_u64,
}
use pulsevideo.MultiHandle.Types.{
  Client, Sink, ClientStatus, CapsOps, is_ok, is_flushing, error, closed, slow,
}
use pulsevideo.MultiHandle.Store.{find_client}
use pulsevideo.MultiHandle.Clients.{update, lookup, remove_client_link}
use pulsevideo.MultiSocket.{Received, handle_client_read, Answer, Written, write_loop}
use pulsevideo.MultiSocket.Class.{multi_socket}

-- The flags of a GIOCondition that the code tests.
pub record Condition : Type 0 where
  pub err : Bool
  pub hup : Bool
  pub input : Bool
  pub pri : Bool
  pub output : Bool

-- The client as the callback leaves it, which is removed if `keep` is false.
abbrev pub store : ℕ → Bool → Client → Sink → Sink
store now keep c s =
    let t = update c.ptr (λ d. c) s in
    if keep then t else remove_client_link multi_socket now c.ptr t

-- The client and the bytes served, after handle_client_write.
abbrev pub store_written : ℕ → Written → Sink → Bool × Sink
store_written now w s = (
  w.result,
  store now w.result w.client (record s { bytes_served = add_u64 s.bytes_served (length w.sent) }),
)

module _ (ops : CapsOps) (now : ℕ) (condition : Condition) (reads : List Received)
    (answers : List Answer) where
  pub on_condition : Client → Sink → Option (Bool × Sink)
  on_condition c s =
      let read_result = handle_client_read reads c in
      if not (is_flushing c.status) && not (is_ok c.status)
      then some (false, remove_client_link multi_socket now c.ptr s)
      else if condition.err
      then some (false, store now false (record c { status = error }) s)
      else if condition.hup
      then some (false, store now false (record c { status = closed }) s)
      else if condition.input || condition.pri
      then some (read_result.0, store now read_result.0 read_result.1 s)
      else if condition.output
      then option_case (write_loop ops now s answers c) none (λ w. some (store_written now w s))
      else some (true, s)

  -- gst_multi_socket_sink_socket_condition: its result, which tells the main loop whether to keep the
  -- source, and the sink. `none` is a read outside the queue.
  pub socket_condition : ℕ → Sink → Option (Bool × Sink)
  socket_condition handle s =
      option_case (lookup handle s) (some (false, s)) (λ c. on_condition c s)

-- mhsink->timeout > 0 && now - mhclient->last_activity_time > mhsink->timeout
unfoldable pub is_overdue : ℕ → ℕ → Client → Bool
is_overdue now limit c = ltb 0 limit && ltb limit (sub_u64 now c.last_activity_time)

-- One round of the for loop of gst_multi_socket_sink_timeout.
unfoldable pub timeout_visit : ℕ → Client → Sink → Sink
timeout_visit now c s =
    if is_overdue now s.timeout c
    then remove_client_link multi_socket now c.ptr
        (update c.ptr (λ d. record d { status = slow }) s)
    else s

-- The for loop over the nodes that are left. `clients->next` is read of the node after its round, so
-- the list has to hold the node still: `none` is the read of a node that the list has given back.
unfoldable pub timeout_walk : ℕ → List Client → Sink → Option Sink
timeout_walk now [] s = some s
timeout_walk now (c ∷ cs) s =
    let t = timeout_visit now c s in
    let next = timeout_walk now cs t in
    option_case (find_client c.ptr t.clients) none (λ node. next)

-- gst_multi_socket_sink_timeout
unfoldable pub on_timeout : ℕ → Sink → Option Sink
on_timeout now s = timeout_walk now s.clients s
