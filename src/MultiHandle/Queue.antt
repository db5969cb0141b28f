-- ===== src/MultiHandle/Queue.antt =====
-- gst/tcp/gstmultihandlesink.c: queue_buffer and render, by which a buffer enters the queue, and
-- client_queue_buffer, by which it gets to one client.
-- `now` is the time that g_get_current_time returns, read once for a whole loop.
pub mod Walk
pub mod Within
pub mod Advance
pub mod Room
pub mod Inside
pub mod Render
pub mod Calm
pub mod Bounded
pub mod Served
pub mod Tracked
pub mod Restart
use pulsevideo.Base.{
  ℕ, zero, suc, ◌+◌, ◌≡◌, Bool, true, false, not, ◌&&◌, ◌||◌, if◌then◌else◌, option_case, ◌==◌, ltb,
  Option, none, some, List, [], ◌∷◌, ◌++◌, length, take, ℤ, pos, pos_part, minus_one, ◌+ℤ◌, ◌-ℤ◌,
  leb_ℤ, ltb_ℤ, eqb_ℤ, max_ℤ, min_ℤ, to_u64, sub_u64, add_u64,
}
use pulsevideo.MultiHandle.Types.{
  Client, Sink, Buffer, Caps, CapsOps, SyncMethod, latest_keyframe, burst_keyframe, slow, size,
}
use pulsevideo.MultiHandle.Class.{SinkClass}
use pulsevideo.MultiHandle.Keyframe.{is_sync_frame}
use pulsevideo.MultiHandle.Limits.{get_buffers_max, find_limits, Bounds}
use pulsevideo.MultiHandle.Position.{recover_client}
use pulsevideo.MultiHandle.Store.{find_client, update_client}
use pulsevideo.MultiHandle.Clients.{update, remove_client_link, pointers}

module _ (ops : CapsOps) where
  -- Whether the stream headers of the new caps go out, for a client that has seen `old`.
  unfoldable pub streamheader_changed : Bool → Caps → Caps → Bool
  streamheader_changed resend caps old =
      if ops.caps_is_equal caps old
      then false
      else option_case caps.streamheader false (λ new_headers.
        option_case old.streamheader true (λ old_headers.
          if not resend then false else not (ops.value_is_equal old_headers new_headers)))

  unfoldable pub send_streamheader : Bool → Caps → Client → Bool
  send_streamheader resend caps c =
      option_case c.caps true (λ old. streamheader_changed resend caps old)

  -- gst_multi_handle_sink_client_queue_buffer
  unfoldable pub client_queue_buffer : Sink → Client → Buffer → Client
  client_queue_buffer s c b =
      let headers =
        if send_streamheader s.resend_streamheader s.caps c
        then option_case s.caps.streamheader [] (λ h. h)
        else [] in
      record c { caps = some s.caps; sending = c.sending ++ headers ++ b ∷ [] }

-- What the loop of queue_buffer has computed when it ends: max_buffer_usage.
pub record Usage : Type 0 where
  pub usage : ℤ
  pub sink : Sink

-- mhsink->units_max > 0 ? get_buffers_max (mhsink, mhsink->units_max) : -1
pub buffers_max : Sink → ℤ → ℤ
buffers_max s max =
    if ltb_ℤ (pos 0) max then get_buffers_max s.unit_format s.bufqueue max else minus_one

-- The soft max: the client after the recovery procedure.
pub recover : Sink → ℤ → Client → Client
recover s soft_max c =
    let newpos = recover_client s c in
    if ltb_ℤ (pos 0) soft_max && leb_ℤ soft_max c.bufpos && not (eqb_ℤ newpos c.bufpos)
    then record c {
      dropped_buffers = add_u64 c.dropped_buffers (to_u64 (c.bufpos -ℤ newpos));
      bufpos = newpos;
      discont = true;
    }
    else c

-- mhclient->bufpos++, then the soft max.
pub advance : Sink → ℤ → Client → Client
advance s soft_max c = recover s soft_max (record c { bufpos = c.bufpos +ℤ pos 1 })

-- The hard max and the timeout.
pub is_too_slow : Sink → ℤ → ℕ → Client → Bool
is_too_slow s max now c =
    (ltb_ℤ (pos 0) max && leb_ℤ max c.bufpos)
    || (ltb 0 s.timeout && ltb s.timeout (sub_u64 now c.last_activity_time))

-- bufpos == 0 || new_connection
pub can_send : Client → Bool
can_send c = eqb_ℤ c.bufpos (pos 0) || c.new_connection

module _ (k : SinkClass) where
  -- How the client that stays is left.
  pub keep_client : Sink → Client → Client
  keep_client s c = if can_send c then k.hash_adding s c else c

  -- A client over the hard max or the timeout, before it is removed.
  pub slow_client : Sink → ℤ → Client → Client
  slow_client s soft_max c = record (advance s soft_max c) { status = slow; bufpos = minus_one }

  -- One round of the loop, at the listed client `c`.
  pub visit : ℕ → ℤ → ℤ → Client → Usage → Usage
  visit now max soft_max c u =
      let moved = advance u.sink soft_max c in
      if is_too_slow u.sink max now moved
      then record u {
        sink = remove_client_link k now c.ptr (update c.ptr (slow_client u.sink soft_max) u.sink);
      }
      else record {
        usage = max_ℤ moved.bufpos u.usage;
        sink = update c.ptr (λ d. keep_client u.sink (advance u.sink soft_max d)) u.sink;
      }

  pub visit_node : ℕ → ℤ → ℤ → ℕ → Usage → Usage
  visit_node now max soft_max p u =
      option_case (find_client p u.sink.clients) u (λ c. visit now max soft_max c u)

  -- The for loop over the nodes that are left; false when it ended with `goto restart`.
  pub visit_walk : ℕ → ℤ → ℤ → ℕ → List ℕ → Usage → Bool × Usage
  visit_walk now max soft_max cookie [] u = (true, u)
  visit_walk now max soft_max cookie (p ∷ ps) u =
      let rest = visit_walk now max soft_max cookie ps (visit_node now max soft_max p u) in
      if not (cookie == u.sink.clients_cookie) then (false, u) else rest

  -- `restart:` is passed once more at most for each client.
  pub visit_rounds : ℕ → ℕ → ℤ → ℤ → Usage → Usage
  visit_rounds zero now max soft_max u = u
  visit_rounds (suc fuel) now max soft_max u =
      let walk = visit_walk now max soft_max u.sink.clients_cookie (pointers u.sink.clients) u in
      let again = visit_rounds fuel now max soft_max walk.1 in if walk.0 then walk.1 else again

-- The limits that the queue is kept to.
abbrev pub minima : Sink → Bounds
minima s = record {
  bytes_min = s.bytes_min;
  buffers_min = s.buffers_min;
  time_min = s.time_min;
  bytes_max = minus_one;
  buffers_max = minus_one;
  time_max = minus_one;
}

-- max_buffer_usage extended to bytes-min, buffers-min and time-min.
pub extend_to_minima : Sink → ℤ → ℤ
extend_to_minima s usage = max_ℤ usage ((find_limits s.bufqueue (minima s)).min_idx +ℤ pos 1)

-- for (i = 0; i < limit; i++), over the first `limit` buffers.
pub include_sync : ℤ → ℕ → List Buffer → ℤ
include_sync usage i [] = usage
include_sync usage i (b ∷ bs) =
    let rest = include_sync usage (i + 1) bs in
    if is_sync_frame b then max_ℤ usage (pos i) else rest

abbrev pub wants_sync : SyncMethod → Bool
wants_sync latest_keyframe = true
wants_sync burst_keyframe = true
wants_sync _ = false

pub sync_limit : Sink → ℤ → ℤ
sync_limit s soft_max =
    let queuelen = pos (length s.bufqueue) in
    if ltb_ℤ (pos 0) soft_max then min_ℤ queuelen soft_max else queuelen

pub extend_to_sync : Sink → ℤ → ℤ → ℤ
extend_to_sync s soft_max usage =
    if wants_sync s.def_sync_method
    then include_sync usage 0 (take (pos_part (sync_limit s soft_max)) s.bufqueue)
    else usage

-- for (i = queuelen - 1; i > max_buffer_usage; i--): the last `n` buffers are looked at.
pub trim : ℕ → ℤ → List Buffer → List Buffer
trim zero usage q = q
trim (suc i) usage q = if ltb_ℤ usage (pos i) then trim i usage (take i q) else q

pub trim_queue : ℤ → Sink → Sink
trim_queue usage s = record s {
  bufqueue = trim (length s.bufqueue) usage s.bufqueue;
  buffers_queued = usage;
}

-- The prepended sink.
abbrev pub prepend : Buffer → Sink → Sink
prepend b s = record s { bufqueue = b ∷ s.bufqueue }

module _ (k : SinkClass) where
  -- The loop over the clients.
  pub visit_clients : ℕ → Sink → Usage
  visit_clients now s =
      visit_rounds k (length s.clients + 1) now (buffers_max s s.units_max)
        (buffers_max s s.units_soft_max) (record { usage = pos 0; sink = s })

  -- gst_multi_handle_sink_queue_buffer
  pub queue_buffer : ℕ → Buffer → Sink → Sink
  queue_buffer now b s =
      let u = visit_clients now (prepend b s) in
      trim_queue
        (extend_to_sync u.sink (buffers_max (prepend b s) s.units_soft_max)
          (extend_to_minima u.sink u.usage))
        u.sink

  -- gst_multi_handle_sink_render; `none` is the refused buffer of a sink that is not open.
  unfoldable pub render : ℕ → Buffer → Sink → Option Sink
  render now b s =
      let headers = if b.header && not s.previous_buffer_in_caps then [] else s.streamheader in
      let t = record s { streamheader = headers; previous_buffer_in_caps = b.header } in
      if not s.is_open
      then none
      else if b.header
      then some (record t { streamheader = headers ++ b ∷ [] })
      else let r = queue_buffer now b t in
        some (record r { bytes_to_serve = add_u64 r.bytes_to_serve (size b) })
