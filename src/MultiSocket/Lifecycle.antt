-- ===== src/MultiSocket/Lifecycle.antt =====
-- gst/tcp/gstmultihandlesink.c: start, stop and change_state, with the start_pre and stop_post of
-- gst/tcp/gstmultisocketsink.c. The thread of the sink, which runs between the two, is in Thread; the
-- base class of GStreamer has no part in the model.
pub mod Stop
use pulsevideo.Base.{ℕ, Bool, true, false, not, if◌then◌else◌, List, [], ◌∷◌, map}
use pulsevideo.MultiHandle.Types.{Client, Sink}
use pulsevideo.MultiHandle.Clients.{clear}
use pulsevideo.MultiSocket.Class.{multi_socket, hash_adding}

-- gst_multi_socket_sink_start_pre: a main context, and a source for each client without one.
unfoldable pub start_pre : Sink → Sink
start_pre s =
    let t = record s { main_context = true } in
    record t { clients = map (λ (c : Client). if c.source then c else hash_adding t c) t.clients }

-- gst_multi_handle_sink_start, which the multisocketsink never makes fail.
unfoldable pub start : Sink → Sink
start s = if s.is_open then s else record (start_pre s) {
  streamheader = [];
  bytes_to_serve = 0;
  bytes_served = 0;
  running = true;
  is_open = true;
}

-- gst_multi_socket_sink_stop_post
unfoldable pub stop_post : Sink → Sink
stop_post s = record s { main_context = false; handle_hash = [] }

-- gst_multi_handle_sink_stop
unfoldable pub stop : ℕ → Sink → Sink
stop now s =
    if not s.is_open
    then s
    else record (stop_post
        (record (clear multi_socket now (record s { running = false })) { streamheader = [] })) {
          bufqueue = [];
          is_open = false;
        }

-- The transitions that the code tells apart.
pub data Transition : Type 0 where
  null_to_ready ready_to_null other_transition : Transition

-- gst_multi_handle_sink_change_state, on another thread than the sink's own: what it does beside
-- the parent class.
unfoldable pub change_state : ℕ → Transition → Sink → Sink
change_state now null_to_ready s = start s
change_state now ready_to_null s = stop now s
change_state now other_transition s = s
