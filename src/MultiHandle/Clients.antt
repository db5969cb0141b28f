-- ===== src/MultiHandle/Clients.antt =====
-- gst/tcp/gstmultihandlesink.c: adding, removing and flushing clients, and their statistics.
-- A logging call has no part in the model. `now` is the time that g_get_current_time returns.
pub mod Remove
pub mod Clear
pub mod Linked
pub mod Balance
pub mod Added
pub mod Calm
pub mod Placed
pub mod Served
pub mod Kept
use pulsevideo.Base.{
  ℕ, zero, suc, ◌+◌, ◌≡◌, Bool, true, false, not, ◌&&◌, ◌||◌, if◌then◌else◌, option_case, ◌==◌, ltb,
  Option, none, some, List, [], ◌∷◌, ◌++◌, map, length, pos, ◌+ℤ◌, sub_u64,
}
use pulsevideo.MultiHandle.Types.{
  Client, Sink, Format, SyncMethod, ClientStatus, ok, removed, duplicate, flushing, Signal,
  client_added, client_removed, clock_time_none, format_code, is_ok,
}
use pulsevideo.MultiHandle.Class.{SinkClass}
use pulsevideo.MultiHandle.Store.{
  find_client, update_client, delete_client, hash_lookup, hash_remove, hash_insert,
}

abbrev pub emit : Signal → Sink → Sink
emit x s = record s { signals = x ∷ s.signals }

abbrev pub update : ℕ → (Client → Client) → Sink → Sink
update p f s = record s { clients = update_client p f s.clients }

-- The node that the hash table holds for a handle, and its client.
unfoldable pub lookup : ℕ → Sink → Option Client
lookup handle s = option_case (hash_lookup handle s.handle_hash) none (λ p. find_client p s.clients)

-- The limits check of add_full; -1 as a guint64 means that there is no limit.
unfoldable pub wrong_limits : Format → ℕ → Format → ℕ → Bool
wrong_limits min_format min_value max_format max_value =
    (format_code min_format == format_code max_format)
    && not (max_value == clock_time_none)
    && not (min_value == clock_time_none)
    && ltb max_value min_value

unfoldable pub insert_client : Client → Sink → Sink
insert_client c s = record s {
  clients = c ∷ s.clients;
  handle_hash = hash_insert c.handle c.ptr s.handle_hash;
  clients_cookie = s.clients_cookie + 1;
  next_ptr = s.next_ptr + 1;
}

-- gst_multi_handle_sink_remove_flush
unfoldable pub flush_client : Client → Sink → Sink
flush_client c s =
    if not (is_ok c.status)
    then s
    else update c.ptr (λ d. record d { flushcount = d.bufpos +ℤ pos 1; status = flushing }) s

unfoldable pub remove_flush : ℕ → Sink → Sink
remove_flush handle s = option_case (lookup handle s) s (λ c. flush_client c s)

module _ (k : SinkClass) where
  -- remove_client_link up to the signal: what is done to the client.
  pub mark_removed : ℕ → Client → Client
  mark_removed now c = record (k.hash_removing (record c { currently_removing = true })) {
    disconnect_time = now;
    sending = [];
    caps = none;
  }

  -- Up to where the lock is taken again: the client is still in the list and in the hash table.
  pub remove_begin : ℕ → Client → Sink → Sink
  remove_begin now c s = emit (client_removed c.handle c.status) (update c.ptr (mark_removed now) s)

  -- From there on.
  pub remove_finish : Client → Sink → Sink
  remove_finish c s = record s {
    handle_hash = hash_remove c.handle s.handle_hash;
    clients = delete_client c.ptr s.clients;
    clients_cookie = s.clients_cookie + 1;
    signals = k.client_free c ++ s.signals;
  }

  pub remove_found : ℕ → Client → Sink → Sink
  remove_found now c s =
      if c.currently_removing then s else remove_finish (mark_removed now c) (remove_begin now c s)

  -- gst_multi_handle_sink_remove_client_link of the node `p`.
  pub remove_client_link : ℕ → ℕ → Sink → Sink
  remove_client_link now p s = option_case (find_client p s.clients) s (λ c. remove_found now c s)

  -- gst_multi_handle_sink_add_full
  unfoldable pub add_full : ℕ → ℕ → SyncMethod → Format → ℕ → Format → ℕ → Sink → Sink
  add_full now handle sync_method min_format min_value max_format max_value s =
      if not s.running
      then s
      else if wrong_limits min_format min_value max_format max_value
      then s
      else option_case (hash_lookup handle s.handle_hash)
          (emit (client_added handle) (
            insert_client
              (record (k.new_client s handle sync_method now) {
                burst_min_format = min_format;
                burst_min_value = min_value;
                burst_max_format = max_format;
                burst_max_value = max_value;
              })
              s))
          (λ p. emit (client_removed handle duplicate) s)

  -- gst_multi_handle_sink_add, with the defaults of the sink.
  unfoldable pub add : ℕ → ℕ → Sink → Sink
  add now handle s =
      add_full now handle s.def_sync_method s.def_burst_format s.def_burst_value s.def_burst_format
        clock_time_none s

  pub remove_client : ℕ → Client → Sink → Sink
  remove_client now c s =
      if not (is_ok c.status)
      then s
      else remove_client_link now c.ptr (update c.ptr (λ d. record d { status = removed }) s)

  -- gst_multi_handle_sink_remove
  pub remove : ℕ → ℕ → Sink → Sink
  remove now handle s = option_case (lookup handle s) s (λ c. remove_client now c s)

-- How a walk along the list of clients ends: at its end, or with `goto restart`.
pub data Walk : Type 0 where
  finished : Sink → Walk
  restart : Sink → Walk

unfoldable pub pointers : List Client → List ℕ
pointers [] = []
pointers (c ∷ cs) = c.ptr ∷ pointers cs

module _ (k : SinkClass) where
  -- The for loop of clear, over the nodes that are left.
  pub clear_walk : ℕ → ℕ → List ℕ → Sink → Walk
  clear_walk now cookie [] s = finished s
  clear_walk now cookie (p ∷ ps) s =
      let rest =
        clear_walk now cookie ps
          (remove_client_link k now p (update p (λ d. record d { status = removed }) s)) in
      if not (cookie == s.clients_cookie) then restart s else rest

  -- `restart:` is passed once more at most for each client.
  pub clear_rounds : ℕ → ℕ → Sink → Sink
  clear_rounds zero now s = s
  clear_rounds (suc fuel) now s = elim (clear_walk now s.clients_cookie (pointers s.clients) s) [
    | finished t ↦ t
    | restart t ↦ clear_rounds fuel now t
  ]

  -- gst_multi_handle_sink_clear
  pub clear : ℕ → Sink → Sink
  clear now s = clear_rounds (length s.clients + 1) now s

-- The fields of the structure that get_stats returns.
pub record Stats : Type 0 where
  pub bytes_sent : ℕ
  pub connect_time : ℕ
  pub disconnect_time : ℕ
  pub connect_duration : ℕ
  pub last_activity_time : ℕ
  pub buffers_dropped : ℕ
  pub first_buffer_ts : ℕ
  pub last_buffer_ts : ℕ

pub client_stats : ℕ → Client → Stats
client_stats now c = record {
  bytes_sent = c.bytes_sent;
  connect_time = c.connect_time;
  disconnect_time = c.disconnect_time;
  connect_duration =
      if c.disconnect_time == 0
      then sub_u64 now c.connect_time
      else sub_u64 c.disconnect_time c.connect_time;
  last_activity_time = c.last_activity_time;
  buffers_dropped = c.dropped_buffers;
  first_buffer_ts = c.first_buffer_ts;
  last_buffer_ts = c.last_buffer_ts;
}

-- gst_multi_handle_sink_get_stats; `none` is the empty structure.
pub get_stats : ℕ → ℕ → Sink → Option Stats
get_stats now handle s = option_case (lookup handle s) none (λ c. some (client_stats now c))
