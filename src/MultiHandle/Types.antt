-- ===== src/MultiHandle/Types.antt =====
-- The data of gst/tcp/gstmultihandlesink.h: buffers, clients, the sink and the class's virtual
-- methods. GstSocketClient and GstMultiSocketSink extend the two structs by one field each
-- (`source` and `main_context`), which stand here beside those that they extend.
use pulsevideo.Base.{ℕ, ℤ, Bool, Option, List, length, ◌-◌, two_64, ◌==◌, not}

-- GST_CLOCK_TIME_NONE, the guint64 with all bits set.
abbrev pub clock_time_none : ℕ
clock_time_none = two_64 - 1

pub data Format : Type 0 where
  undefined default bytes time buffers percent : Format

pub data RecoverPolicy : Type 0 where
  no_recovery resync_latest resync_soft_limit resync_keyframe : RecoverPolicy

pub data SyncMethod : Type 0 where
  latest next_keyframe latest_keyframe burst burst_keyframe burst_with_keyframe : SyncMethod

pub data ClientStatus : Type 0 where
  ok closed removed slow error duplicate flushing : ClientStatus

-- A GstBuffer: its bytes, its timestamp and the two flags that the sink reads.
pub record Buffer : Type 0 where
  pub contents : List ℕ
  pub timestamp : ℕ
  pub delta_unit : Bool
  pub header : Bool

-- gst_buffer_get_size
abbrev pub size : Buffer → ℕ
size b = length b.contents

-- GST_BUFFER_TIMESTAMP_IS_VALID
abbrev pub timestamp_is_valid : Buffer → Bool
timestamp_is_valid b = not (b.timestamp == clock_time_none)

-- The caps of a stream, as far as the sink looks into them. `identity` stands for all the other
-- fields, which only `gst_caps_is_equal` reads.
pub record Caps : Type 0 where
  pub identity : ℕ
  pub streamheader : Option (List Buffer)

-- What the sink asks of GStreamer about caps.
pub record CapsOps : Type 0 where
  pub caps_is_equal : Caps → Caps → Bool
  pub value_is_equal : List Buffer → List Buffer → Bool

-- GstMultiHandleClient. `ptr` is the address of the struct, and the handle is the socket.
pub record Client : Type 0 where
  pub ptr : ℕ
  pub handle : ℕ
  pub bufpos : ℤ
  pub flushcount : ℤ
  pub status : ClientStatus
  pub sending : List Buffer
  pub bufoffset : ℕ
  pub discont : Bool
  pub new_connection : Bool
  pub currently_removing : Bool
  pub sync_method : SyncMethod
  pub burst_min_format : Format
  pub burst_min_value : ℕ
  pub burst_max_format : Format
  pub burst_max_value : ℕ
  pub caps : Option Caps
  pub bytes_sent : ℕ
  pub connect_time : ℕ
  pub disconnect_time : ℕ
  pub last_activity_time : ℕ
  pub dropped_buffers : ℕ
  pub avg_queue_size : ℕ
  pub first_buffer_ts : ℕ
  pub last_buffer_ts : ℕ
  pub source : Bool

-- The signals that an application sees, each with its handle.
pub data Signal : Type 0 where
  client_added : ℕ → Signal
  client_removed : ℕ → ClientStatus → Signal
  client_socket_removed : ℕ → Signal

-- GstMultiHandleSink. `clients` is the GList of clients; `handle_hash` maps a handle to the list
-- node of its client, named by the client's address; `signals` holds the signals emitted so far,
-- the latest first; `next_ptr` is the address that the next `g_new0` returns; `caps` are the
-- current caps of the sink's pad.
pub record Sink : Type 0 where
  pub bytes_to_serve : ℕ
  pub bytes_served : ℕ
  pub clients : List Client
  pub clients_cookie : ℕ
  pub handle_hash : List (ℕ × ℕ)
  pub streamheader : List Buffer
  pub previous_buffer_in_caps : Bool
  pub bufqueue : List Buffer
  pub running : Bool
  pub is_open : Bool
  pub unit_format : Format
  pub units_max : ℤ
  pub units_soft_max : ℤ
  pub recover_policy : RecoverPolicy
  pub timeout : ℕ
  pub def_sync_method : SyncMethod
  pub def_burst_format : Format
  pub def_burst_value : ℕ
  pub bytes_min : ℤ
  pub time_min : ℤ
  pub buffers_min : ℤ
  pub resend_streamheader : Bool
  pub qos_dscp : ℤ
  pub buffers_queued : ℤ
  pub main_context : Bool
  pub caps : Caps
  pub next_ptr : ℕ
  pub signals : List Signal

-- The numbers of the two enumerations that the code compares.
abbrev pub format_code : Format → ℕ
format_code undefined = 0
format_code default = 1
format_code bytes = 2
format_code time = 3
format_code buffers = 4
format_code percent = 5

abbrev pub status_code : ClientStatus → ℕ
status_code ok = 0
status_code closed = 1
status_code removed = 2
status_code slow = 3
status_code error = 4
status_code duplicate = 5
status_code flushing = 6

abbrev pub is_ok : ClientStatus → Bool
is_ok st = status_code st == 0

abbrev pub is_flushing : ClientStatus → Bool
is_flushing st = status_code st == 6
