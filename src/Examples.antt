-- ===== src/Examples.antt =====
-- Concrete buffers, clients and sinks, and what the theorems say of them.
pub mod Queues
pub mod Sinks
pub mod Files
pub mod Sources
pub mod Publishing
pub mod Reached
pub mod Streams
pub mod Threads
use pulsevideo.Base.{ℕ, Bool, true, false, none, List, [], ◌∷◌, ℤ, pos, minus_one, Option, some}
use pulsevideo.MultiHandle.Types.{
  Buffer, Client, Sink, Caps, CapsOps, latest, ok, undefined, clock_time_none, buffers,
  resync_latest,
}

-- A key frame, and a frame that depends on it.
abbrev pub key : Buffer
key = record { contents = 1 ∷ 2 ∷ 3 ∷ []; timestamp = 100; delta_unit = false; header = false }

abbrev pub delta : Buffer
delta = record { contents = 4 ∷ 5 ∷ []; timestamp = 200; delta_unit = true; header = false }

abbrev pub header : Buffer
header = record { contents = 9 ∷ []; timestamp = 0; delta_unit = false; header = true }

abbrev pub video_caps : Caps
video_caps = record { identity = 1; streamheader = some (header ∷ []) }

-- Caps that are always equal.
abbrev pub any_caps : CapsOps
any_caps = record { caps_is_equal = λ c d. true; value_is_equal = λ g h. true }

abbrev pub client : ℕ → ℕ → ℤ → Client
client ptr handle position = record {
  ptr = ptr;
  handle = handle;
  bufpos = position;
  flushcount = minus_one;
  status = ok;
  sending = [];
  bufoffset = 0;
  discont = false;
  new_connection = false;
  currently_removing = false;
  sync_method = latest;
  burst_min_format = undefined;
  burst_min_value = 0;
  burst_max_format = undefined;
  burst_max_value = 0;
  caps = none;
  bytes_sent = 0;
  connect_time = 5;
  disconnect_time = 0;
  last_activity_time = 5;
  dropped_buffers = 0;
  avg_queue_size = 0;
  first_buffer_ts = clock_time_none;
  last_buffer_ts = clock_time_none;
  source = false;
}

-- A running sink without limits.
abbrev pub sink : List Client → List (ℕ × ℕ) → List Buffer → Sink
sink clients handles queue = record {
  bytes_to_serve = 0;
  bytes_served = 0;
  clients = clients;
  clients_cookie = 2;
  handle_hash = handles;
  streamheader = [];
  previous_buffer_in_caps = false;
  bufqueue = queue;
  running = true;
  is_open = true;
  unit_format = buffers;
  units_max = minus_one;
  units_soft_max = minus_one;
  recover_policy = resync_latest;
  timeout = 0;
  def_sync_method = latest;
  def_burst_format = undefined;
  def_burst_value = 0;
  bytes_min = minus_one;
  time_min = minus_one;
  buffers_min = minus_one;
  resend_streamheader = true;
  qos_dscp = minus_one;
  buffers_queued = pos 0;
  main_context = true;
  caps = video_caps;
  next_ptr = 10;
  signals = [];
}

abbrev pub old_client : Client
old_client = client 1 10 (pos 1)

abbrev pub young_client : Client
young_client = client 2 20 (pos 0)

abbrev pub queue : List Buffer
queue = delta ∷ key ∷ []

abbrev pub two_clients : Sink
two_clients = sink (young_client ∷ old_client ∷ []) ((20, 2) ∷ (10, 1) ∷ []) queue
