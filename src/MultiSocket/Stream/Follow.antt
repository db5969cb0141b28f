-- ===== src/MultiSocket/Stream/Follow.antt =====
-- One client through everything that happens to a sink: buffers, its own socket, and the sockets of the
-- others.
pub mod Others
pub mod Served
pub mod Ready
pub mod Log
use pulsevideo.Base.{
  ℕ, ◌≡◌, ◌≢◌, Bool, true, false, option_case, Option, none, some, List, [], ◌∷◌, ◌++◌,
  if◌then◌else◌, All,
}
use pulsevideo.MultiHandle.Types.{Sink, Buffer, CapsOps}
use pulsevideo.MultiHandle.Clients.{lookup}
use pulsevideo.MultiHandle.Queue.{render}
use pulsevideo.MultiSocket.{Received, Answer, write_loop}
use pulsevideo.MultiSocket.Class.{multi_socket}
use pulsevideo.MultiSocket.Condition.{Condition, socket_condition}
use pulsevideo.MultiSocket.Condition.Write.{can_write}
use pulsevideo.MultiSocket.Stream.Fed.{IsFair}

pub data Event : Type 0 where
  rendered : ℕ → Buffer → Event
  writable : ℕ → List Answer → Event
  other_ready : ℕ → Condition → List Received → List Answer → ℕ → Event

-- The bytes before those of what follows.
pub after_bytes : List ℕ → Option (List ℕ × Sink) → Option (List ℕ × Sink)
after_bytes bytes none = none
after_bytes bytes (some r) = some (bytes ++ r.0, r.1)

module _ (ops : CapsOps) (handle : ℕ) where
  -- What the socket of the client takes when it is ready.
  unfoldable pub sent_by : ℕ → List Answer → Sink → List ℕ
  sent_by now answers s =
      option_case (lookup handle s) []
        (λ c. option_case (write_loop ops now s answers c) [] (λ w. w.sent))

  -- The bytes that the client gets through the events, and the sink after them; `none` where a call
  -- does not return.
  pub follow : List Event → Sink → Option (List ℕ × Sink)
  follow [] s = some ([], s)
  follow (rendered now b ∷ es) s = option_case (render multi_socket now b s) none (λ t. follow es t)
  follow (writable now answers ∷ es) s =
      option_case (socket_condition ops now can_write [] answers handle s) none
        (λ r. after_bytes (sent_by now answers s) (follow es r.1))
  follow (other_ready now condition reads answers other ∷ es) s =
      option_case (socket_condition ops now condition reads answers other s) none
        (λ r. follow es r.1)

-- The socket of the client with this handle gives no error, and the others are others.
abbrev pub IsFairEvent : ℕ → Event → Type 0
IsFairEvent handle (rendered now b) = Unit {0}
IsFairEvent handle (writable now answers) = All IsFair answers
IsFairEvent handle (other_ready now condition reads answers other) = other ≢ handle

-- The bytes of the buffers that the events bring, without the stream headers.
pub stream : List Event → List ℕ
stream [] = []
stream (rendered now b ∷ es) = (if b.header then [] else b.contents) ++ stream es
stream (writable now answers ∷ es) = stream es
stream (other_ready now condition reads answers other ∷ es) = stream es
