-- ===== src/MultiSocket.antt =====
-- gst/tcp/gstmultisocketsink.c: how a client is read from and written to.
-- A socket is the list of its answers to the calls of GIO; after them it blocks, or has no more
-- bytes to read. `now` is the time that g_get_current_time returns.
pub mod Stream
pub mod Class
pub mod Condition
pub mod Lifecycle
pub mod Thread
pub mod Vectors
pub mod Messages
pub mod Read
pub mod Reach
use pulsevideo.Base.{
  ℕ, zero, suc, ◌+◌, ◌-◌, ◌≡◌, Bool, true, false, not, ◌&&◌, if◌then◌else◌, option_case, ◌==◌, ltb,
  leb, Option, none, some, List, [], ◌∷◌, ◌++◌, length, take, drop, get_elem?, ℤ, pos, negsuc,
  minus_one, ◌-ℤ◌, eqb_ℤ, leb_ℤ, min, add_u64,
}
use pulsevideo.MultiHandle.Types.{
  Client, Sink, Buffer, CapsOps, size, clock_time_none, timestamp_is_valid, is_flushing, closed,
  removed, error,
}
use pulsevideo.MultiHandle.Position.{new_client_position}
use pulsevideo.MultiHandle.Queue.{client_queue_buffer}

-- What g_socket_get_available_bytes and g_socket_receive answer: no count, a number of bytes, or
-- an error.
pub data Received : Type 0 where
  unknown : Received
  got : ℕ → Received
  failed : Received

-- handle_client_read: the result, and the client.
pub read_loop : Bool → List Received → Client → Bool × Client
read_loop first [] c = if first then (false, record c { status = closed }) else (true, c)
read_loop first (unknown ∷ rs) c = (true, c)
read_loop first (failed ∷ rs) c = (false, record c { status = error })
read_loop first (got zero ∷ rs) c =
    if first then (false, record c { status = closed }) else (true, c)
read_loop first (got (suc n) ∷ rs) c = read_loop false rs c

pub handle_client_read : List Received → Client → Bool × Client
handle_client_read rs c = read_loop true rs c

-- The vectors for the first `n` memories of a buffer, from the byte `offset` on.
pub vectors : ℕ → List (List ℕ) → List (List ℕ)
vectors zero ms = []
vectors (suc n) [] = []
vectors (suc n) (m ∷ ms) = m ∷ vectors n ms

-- map_n_memory_output_vector: the memory that gst_buffer_find_memory finds comes first, without
-- the bytes that it skips.
pub map_n_memory_output_vector : ℕ → ℕ → List (List ℕ) → List (List ℕ)
map_n_memory_output_vector num_vectors offset [] = []
map_n_memory_output_vector num_vectors offset (m ∷ ms) =
    let rest = map_n_memory_output_vector num_vectors (offset - length m) ms in
    if ltb offset (length m) then vectors num_vectors (drop offset m ∷ ms) else rest

-- What g_socket_send_message answers: the number of bytes that it takes, at most what it was
-- given, or one of the errors that the code tells apart.
pub data Answer : Type 0 where
  accepted : ℕ → Answer
  would_block : Answer
  reset : Answer
  broken : Answer

-- How the first half of a round of handle_client_write ends: with a buffer to send, with `return
-- TRUE`, at `flushed`, or at an index outside the queue.
pub data Pick : Type 0 where
  ready : Client → Pick
  idle : Client → Pick
  flushed : Client → Pick
  out_of_range : Pick

abbrev pub pick_case {ℓ} : {A : Type ℓ} → Pick → (Client → A) → (Client → A) → (Client → A) → A → A
pick_case (ready c) f g h x = f c
pick_case (idle c) f g h x = g c
pick_case (flushed c) f g h x = h c
pick_case out_of_range f g h x = x

-- g_array_index (mhsink->bufqueue, GstBuffer *, bufpos)
abbrev pub at_index : List Buffer → ℤ → Option Buffer
at_index q (pos n) = get_elem? q n
at_index q (negsuc n) = none

abbrev pub without_source : Client → Client
without_source c = record c { source = false }

module _ (ops : CapsOps) where
  -- The client with the buffer of its position.
  pub take_buffer : Sink → Client → Buffer → Client
  take_buffer s c b =
      record (client_queue_buffer ops s
        (record c {
          bufpos = c.bufpos -ℤ pos 1;
          first_buffer_ts =
              if c.first_buffer_ts == clock_time_none then b.timestamp else c.first_buffer_ts;
          last_buffer_ts = if timestamp_is_valid b then b.timestamp else c.last_buffer_ts;
          flushcount = if eqb_ℤ c.flushcount minus_one then c.flushcount else c.flushcount -ℤ pos 1;
        })
        b) { bufoffset = 0 }

  pub grab : Sink → Client → Pick
  grab s c =
      if eqb_ℤ c.flushcount (pos 0)
      then flushed c
      else option_case (at_index s.bufqueue c.bufpos) out_of_range (λ b. ready (take_buffer s c b))

  -- A new connection needs a good spot first.
  pub place : Sink → Client → Pick
  place s c =
      let placed = new_client_position s.bufqueue c in
      if leb_ℤ (pos 0) placed.0
      then grab s (record placed.1 { new_connection = false; bufpos = placed.0 })
      else idle (without_source placed.1)

  -- The client has to be given a buffer only when it is not working on one.
  pub pick_by : List Buffer → Sink → Client → Pick
  pick_by (b ∷ bs) s c = ready c
  pick_by [] s c =
      if eqb_ℤ c.bufpos minus_one
      then if eqb_ℤ c.flushcount (pos 0)
        then flushed (without_source c)
        else idle (without_source c)
      else if c.new_connection && not (is_flushing c.status)
      then place s c
      else grab s c

  -- The part of a round up to "see if we need to send something".
  pub pick : Sink → Client → Pick
  pick s c = pick_by c.sending s c

-- How handle_client_write ends: its result, the client, and the bytes that the socket took.
pub record Written : Type 0 where
  pub result : Bool
  pub client : Client
  pub sent : List ℕ

abbrev pub ended : Bool → Client → Option Written
ended result c = some (record { result = result; client = c; sent = [] })

-- The bytes of the buffer in front that are still to send.
abbrev pub bytes_left : ℕ → List Buffer → List ℕ
bytes_left offset [] = []
bytes_left offset (b ∷ bs) = drop offset b.contents

abbrev pub rest : List Buffer → List Buffer
rest [] = []
rest (b ∷ bs) = bs

abbrev pub to_send : Client → List ℕ
to_send c = bytes_left c.bufoffset c.sending

-- The client after `wrote` bytes were taken.
pub after_write : ℕ → ℕ → Client → Client
after_write now wrote c =
    let partial = ltb wrote (length (to_send c)) in
    record c {
      sending = if partial then c.sending else rest c.sending;
      bufoffset = if partial then c.bufoffset + wrote else 0;
      bytes_sent = add_u64 c.bytes_sent wrote;
      last_activity_time = now;
    }

-- The bytes of a successful call before those of the calls after it.
pub before : List ℕ → Option Written → Option Written
before bytes none = none
before bytes (some w) = some (record w { sent = bytes ++ w.sent })

module _ (ops : CapsOps) where
  -- The do loop: one answer for each round, since a round that does not return writes.
  pub write_loop : ℕ → Sink → List Answer → Client → Option Written
  write_loop now s [] c =
      pick_case (pick ops s c) (ended true) (ended true)
        (λ d. ended false (record d { status = removed })) none
  write_loop now s (accepted n ∷ answers) c =
      pick_case (pick ops s c)
        (λ d.
          let wrote = min n (length (to_send d)) in
          before (take wrote (to_send d)) (write_loop now s answers (after_write now wrote d)))
        (ended true) (λ d. ended false (record d { status = removed })) none
  write_loop now s (would_block ∷ answers) c =
      pick_case (pick ops s c) (ended true) (ended true)
        (λ d. ended false (record d { status = removed })) none
  write_loop now s (reset ∷ answers) c =
      pick_case (pick ops s c) (λ d. ended false (record d { status = closed })) (ended true)
        (λ d. ended false (record d { status = removed })) none
  write_loop now s (broken ∷ answers) c =
      pick_case (pick ops s c) (λ d. ended false (record d { status = error })) (ended true)
        (λ d. ended false (record d { status = removed })) none
