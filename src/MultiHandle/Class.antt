-- ===== src/MultiHandle/Class.antt =====
-- gst_multi_handle_sink_client_init of gst/tcp/gstmultihandlesink.c, and the virtual methods of
-- GstMultiHandleSinkClass by which the base class works on a client.
use pulsevideo.Base.{ℕ, ◌≡◌, false, true, none, List, [], minus_one}
use pulsevideo.MultiHandle.Types.{Client, Sink, Signal, SyncMethod, ok, undefined, clock_time_none}

-- The client that g_new0 and client_init leave at the address `ptr`, at the time `now`.
unfoldable pub client_init : ℕ → ℕ → SyncMethod → ℕ → Client
client_init ptr handle sync_method now = record {
  ptr = ptr;
  handle = handle;
  bufpos = minus_one;
  flushcount = minus_one;
  status = ok;
  sending = [];
  bufoffset = 0;
  discont = false;
  new_connection = true;
  currently_removing = false;
  sync_method = sync_method;
  burst_min_format = undefined;
  burst_min_value = 0;
  burst_max_format = undefined;
  burst_max_value = 0;
  caps = none;
  bytes_sent = 0;
  connect_time = now;
  disconnect_time = 0;
  last_activity_time = now;
  dropped_buffers = 0;
  avg_queue_size = 0;
  first_buffer_ts = clock_time_none;
  last_buffer_ts = clock_time_none;
  source = false;
}

-- What the base class relies on: the methods touch nothing of a client but its event source.
pub record SinkClass : Type 0 where
  pub hash_adding : Sink → Client → Client
  pub hash_removing : Client → Client
  pub new_client : Sink → ℕ → SyncMethod → ℕ → Client
  pub client_free : Client → List Signal
  pub hash_adding_lem :
      (s : Sink) (c : Client) → hash_adding s c ≡ record c { source = (hash_adding s c).source }
  pub hash_removing_lem :
      (c : Client) → hash_removing c ≡ record c { source = (hash_removing c).source }
  pub new_client_lem :
      (s : Sink) (handle : ℕ) (m : SyncMethod) (now : ℕ)
      → new_client s handle m now ≡ record (client_init s.next_ptr handle m now) {
        source = (new_client s handle m now).source;
      }
