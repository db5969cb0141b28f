-- ===== src/SocketSrc.antt =====
-- gst/gstsocketsrc.c: fill, which reads one buffer from the socket of the element, and the property
-- that replaces that socket. A GSocket is a number, its identity.
pub mod Fill
use pulsevideo.Base.{
  ℕ, zero, suc, Bool, true, false, not, ◌&&◌, if◌then◌else◌, option_case, ◌==◌, Option, none, some,
  List, [], ◌∷◌, ◌++◌, length,
}

-- The GstFlowReturn values that fill returns.
pub data Flow : Type 0 where
  flow_ok flow_eos flow_flushing flow_error : Flow

-- GstSocketSrc, and whether its cancellable is cancelled.
pub record SocketSrc : Type 0 where
  pub socket : Option ℕ
  pub cancelled : Bool

-- What g_socket_receive_message answers: bytes, none of which means that the other end has closed the
-- socket, or an error; with the control messages that came with it.
pub data Received : Type 0 where
  received : List ℕ → List ℕ → Received
  cancelled_error : Received
  other_error : Received

-- How fill ends: what it returns, the bytes and the control messages of the buffer, the socket that
-- was read last, and the world around it. The buffer is resized only where fill returns OK.
pub record Filled {ℓ} (W : Type ℓ) : Type ℓ where
  pub flow : Flow
  pub contents : List ℕ
  pub messages : List ℕ
  pub last_socket : Option ℕ
  pub world : W

-- gst_socket_src_set_property, gst_socket_src_unlock and gst_socket_src_unlock_stop.
unfoldable pub set_socket : Option ℕ → SocketSrc → SocketSrc
set_socket socket src = record src { socket = socket }

pub unlock : SocketSrc → SocketSrc
unlock src = record src { cancelled = true }

pub unlock_stop : SocketSrc → SocketSrc
unlock_stop src = record src { cancelled = false }

-- The element in the world of those that listen to its signal: where it is, and what the handlers of
-- on-socket-eos do.
module _ {ℓ} {W : Type ℓ} (element : W → SocketSrc) (on_socket_eos : W → W) where
  -- One call for each round of `retry:`. After the answers the call is cancelled.
  pub receive_loop : List Received → ℕ → List ℕ → W → Filled W
  receive_loop [] socket messages w = record {
    flow = flow_flushing;
    contents = [];
    messages = messages;
    last_socket = some socket;
    world = w;
  }
  receive_loop (cancelled_error ∷ rs) socket messages w = record {
    flow = flow_flushing;
    contents = [];
    messages = messages;
    last_socket = some socket;
    world = w;
  }
  receive_loop (other_error ∷ rs) socket messages w = record {
    flow = flow_error;
    contents = [];
    messages = messages;
    last_socket = some socket;
    world = w;
  }
  receive_loop (received (b ∷ bs) ms ∷ rs) socket messages w = record {
    flow = flow_ok;
    contents = b ∷ bs;
    messages = messages ++ ms;
    last_socket = some socket;
    world = w;
  }
  receive_loop (received [] ms ∷ rs) socket messages w =
      let told = on_socket_eos w in
      let eos : Filled W = record {
        flow = flow_eos;
        contents = [];
        messages = messages ++ ms;
        last_socket = some socket;
        world = told;
      } in
      option_case (element told).socket eos (λ tmp.
        let again = receive_loop rs tmp (messages ++ ms) told in
        if not (tmp == socket) then again else eos)

  -- gst_socket_src_fill
  pub fill : List Received → W → Filled W
  fill rs w =
      option_case (element w).socket
        (record { flow = flow_error; contents = []; messages = []; last_socket = none; world = w })
        (λ socket. receive_loop rs socket [] w)
