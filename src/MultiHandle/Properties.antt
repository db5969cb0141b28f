-- ===== src/MultiHandle/Properties.antt =====
-- gst/tcp/gstmultihandlesink.c: the sink that init makes, and its GObject properties. A value has the
-- type that the property is installed with; gst_multi_handle_sink_setup_dscp, which writing qos-dscp
-- calls, sets an option of each client's socket.
pub mod Dscp
use pulsevideo.Base.{
  ℕ, ◌≡◌, refl, ℤ, pos, negsuc, minus_one, two_31, two_32, to_gint, to_u32, ◌<◌, Bool, true, false,
  none, [], length, ◌≤ℤ◌, ◌<ℤ◌, arith,
}
use pulsevideo.MultiHandle.Types.{
  Sink, Caps, Format, RecoverPolicy, SyncMethod, buffers, undefined, no_recovery, latest,
}

-- gst_multi_handle_sink_init, in memory that g_object_new has cleared. `caps` are those that the pad
-- will get, and `next_ptr` is the first address that the allocator will give to a client.
unfoldable pub init : Caps → ℕ → Sink
init caps next_ptr = record {
  bytes_to_serve = 0;
  bytes_served = 0;
  clients = [];
  clients_cookie = 0;
  handle_hash = [];
  streamheader = [];
  previous_buffer_in_caps = false;
  bufqueue = [];
  running = false;
  is_open = false;
  unit_format = buffers;
  units_max = minus_one;
  units_soft_max = minus_one;
  recover_policy = no_recovery;
  timeout = 0;
  def_sync_method = latest;
  def_burst_format = undefined;
  def_burst_value = 0;
  bytes_min = minus_one;
  time_min = minus_one;
  buffers_min = minus_one;
  resend_streamheader = true;
  qos_dscp = minus_one;
  buffers_queued = pos 0;
  main_context = false;
  caps = caps;
  next_ptr = next_ptr;
  signals = [];
}

-- The properties that can be written.
pub data Property : Type 0 where
  prop_buffers_max prop_buffers_soft_max prop_time_min prop_bytes_min prop_buffers_min : Property
  prop_unit_format prop_units_max prop_units_soft_max prop_recover_policy prop_timeout : Property
  prop_sync_method prop_burst_format prop_burst_value prop_qos_dscp : Property
  prop_resend_streamheader : Property

-- The type of a property's value.
abbrev pub ValueOf : Property → Type 0
ValueOf prop_buffers_max = ℤ
ValueOf prop_buffers_soft_max = ℤ
ValueOf prop_time_min = ℤ
ValueOf prop_bytes_min = ℤ
ValueOf prop_buffers_min = ℤ
ValueOf prop_unit_format = Format
ValueOf prop_units_max = ℤ
ValueOf prop_units_soft_max = ℤ
ValueOf prop_recover_policy = RecoverPolicy
ValueOf prop_timeout = ℕ
ValueOf prop_sync_method = SyncMethod
ValueOf prop_burst_format = Format
ValueOf prop_burst_value = ℕ
ValueOf prop_qos_dscp = ℤ
ValueOf prop_resend_streamheader = Bool

-- gst_multi_handle_sink_set_property
unfoldable pub set_property : (p : Property) → ValueOf p → Sink → Sink
set_property prop_buffers_max v s = record s { units_max = v }
set_property prop_buffers_soft_max v s = record s { units_soft_max = v }
set_property prop_time_min v s = record s { time_min = v }
set_property prop_bytes_min v s = record s { bytes_min = v }
set_property prop_buffers_min v s = record s { buffers_min = v }
set_property prop_unit_format v s = record s { unit_format = v }
set_property prop_units_max v s = record s { units_max = v }
set_property prop_units_soft_max v s = record s { units_soft_max = v }
set_property prop_recover_policy v s = record s { recover_policy = v }
set_property prop_timeout v s = record s { timeout = v }
set_property prop_sync_method v s = record s { def_sync_method = v }
set_property prop_burst_format v s = record s { def_burst_format = v }
set_property prop_burst_value v s = record s { def_burst_value = v }
set_property prop_qos_dscp v s = record s { qos_dscp = v }
set_property prop_resend_streamheader v s = record s { resend_streamheader = v }

-- gst_multi_handle_sink_get_property. The two older names of units-max and units-soft-max are
-- installed as a gint, and g_value_set_int cuts the gint64 of the sink to one.
pub get_property : (p : Property) → Sink → ValueOf p
get_property prop_buffers_max s = to_gint (to_u32 s.units_max)
get_property prop_buffers_soft_max s = to_gint (to_u32 s.units_soft_max)
get_property prop_time_min s = s.time_min
get_property prop_bytes_min s = s.bytes_min
get_property prop_buffers_min s = s.buffers_min
get_property prop_unit_format s = s.unit_format
get_property prop_units_max s = s.units_max
get_property prop_units_soft_max s = s.units_soft_max
get_property prop_recover_policy s = s.recover_policy
get_property prop_timeout s = s.timeout
get_property prop_sync_method s = s.def_sync_method
get_property prop_burst_format s = s.def_burst_format
get_property prop_burst_value s = s.def_burst_value
get_property prop_qos_dscp s = s.qos_dscp
get_property prop_resend_streamheader s = s.resend_streamheader

-- The properties that can only be read.
pub data Counter : Type 0 where
  prop_buffers_queued prop_bytes_to_serve prop_bytes_served prop_num_handles : Counter

-- The same function on these; g_value_set_uint makes a guint of the gint buffers_queued.
pub get_counter : Counter → Sink → ℕ
get_counter prop_buffers_queued s = to_u32 s.buffers_queued
get_counter prop_bytes_to_serve s = s.bytes_to_serve
get_counter prop_bytes_served s = s.bytes_served
get_counter prop_num_handles s = length s.handle_hash

-- A gint where the property is installed as one whose field is wider.
unfoldable pub InRange : (p : Property) → ValueOf p → Type 0
InRange prop_buffers_max v = (negsuc two_31 <ℤ v) × (v <ℤ pos two_31)
InRange prop_buffers_soft_max v = (negsuc two_31 <ℤ v) × (v <ℤ pos two_31)
InRange _ v = Unit {0}

to_gint-to_u32 : (v : ℤ) → negsuc two_31 <ℤ v → v <ℤ pos two_31 → to_gint (to_u32 v) ≡ v
unfolding to_gint to_u32
to_gint-to_u32 (pos n) a b = ground arith
to_gint-to_u32 (negsuc n) a b = ground arith

-- A property reads as it was written, where a gint was written to a gint.
pub get_property-set_property :
    (p : Property) (v : ValueOf p) (s : Sink)
    → InRange p v
    → get_property p (set_property p v s) ≡ v
unfolding get_property set_property InRange
get_property-set_property prop_buffers_max v s h = to_gint-to_u32 v h.0 h.1
get_property-set_property prop_buffers_soft_max v s h = to_gint-to_u32 v h.0 h.1
get_property-set_property prop_time_min v s h = refl
get_property-set_property prop_bytes_min v s h = refl
get_property-set_property prop_buffers_min v s h = refl
get_property-set_property prop_unit_format v s h = refl
get_property-set_property prop_units_max v s h = refl
get_property-set_property prop_units_soft_max v s h = refl
get_property-set_property prop_recover_policy v s h = refl
get_property-set_property prop_timeout v s h = refl
get_property-set_property prop_sync_method v s h = refl
get_property-set_property prop_burst_format v s h = refl
get_property-set_property prop_burst_value v s h = refl
get_property-set_property prop_qos_dscp v s h = refl
get_property-set_property prop_resend_streamheader v s h = refl
