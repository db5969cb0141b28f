-- ===== src/VideoSink.antt =====
-- gst/gstpulsevideosink.c: the sink that publishes a VideoSource2 on D-Bus and gives each client that
-- attaches one end of a pair of sockets, whose other end goes to its multisocketsink. Names, paths and
-- caps are numbers, their identities; a GSocket is named by its descriptor. What D-Bus, socketpair, the
-- pad and the clock answer are parameters.
pub mod Wait
pub mod Attach
pub mod Register
pub mod Serve
use pulsevideo.Base.{
  ℕ, zero, suc, ◌+◌, Bool, true, false, not, if◌then◌else◌, option_case, ltb, Option, none, some,
  List, [], ◌∷◌, ℤ, pos,
}
use pulsevideo.Base.Element.{StateChangeReturn, change_failure, is_failure}
use pulsevideo.Fault.{FaultPoint, Injected, returned, slept, aborted, out_of_fuel, inject_fault}
use pulsevideo.MultiHandle.Types.{Sink, Caps, latest, resync_latest}
use pulsevideo.MultiHandle.Store.{hash_lookup}
use pulsevideo.MultiHandle.Clients.{add}
use pulsevideo.MultiHandle.Properties.{
  ValueOf, init, set_property, prop_buffers_max, prop_buffers_soft_max, prop_recover_policy,
  prop_sync_method,
}
use pulsevideo.MultiSocket.Class.{multi_socket}

-- GstPulseVideoSink: its settings, its D-Bus object (where it is exported, and its property "caps"),
-- the capsfilter, the multisocketsink and the fault injection point of Attach.
pub record VideoSink : Type 0 where
  pub dbus : Option ℕ
  pub bus_name : ℕ
  pub object_path : ℕ
  pub connection_in_use : Option ℕ
  pub bus_name_token : ℕ
  pub exported : Option (ℕ × ℕ)
  pub interface_caps : ℕ
  pub capsfilter : ℕ
  pub socketsink : Sink
  pub pre_attach : FaultPoint

-- The multisocketsink that gst_pulsevideo_sink_init makes.
unfoldable pub socket_sink : Caps → ℕ → Sink
socket_sink caps next_ptr = set_property prop_sync_method latest (
    set_property prop_recover_policy resync_latest (
      set_property prop_buffers_soft_max (pos 1)
        (set_property prop_buffers_max (pos 2) (init caps next_ptr))))

-- gst_pulsevideo_sink_set_property
pub set_dbus : Option ℕ → VideoSink → VideoSink
set_dbus conn sink = record sink { dbus = conn }

pub set_bus_name : ℕ → VideoSink → VideoSink
set_bus_name name sink = record sink { bus_name = name }

pub set_object_path : (ℕ → Bool) → ℕ → VideoSink → VideoSink
set_object_path is_object_path path sink =
    if is_object_path path then record sink { object_path = path } else sink

pub set_caps : (ℕ → ℕ) → ℕ → VideoSink → VideoSink
set_caps normalise caps sink = record sink { capsfilter = caps; interface_caps = normalise caps }

-- What D-Bus answers: the connections to the bus that started the program and to the session's,
-- whether an export works, and the token of an owned name, which is not 0.
pub record Dbus : Type 0 where
  pub starter : Option ℕ
  pub session : Option ℕ
  pub exports : ℕ → ℕ → Bool
  pub own_name : ℕ → ℕ → ℕ

unfoldable pub connect_to_dbus : Dbus → Option ℕ → Option ℕ
connect_to_dbus bus (some connection) = some connection
connect_to_dbus bus none = option_case bus.starter bus.session (λ connection. some connection)

-- gst_pulsevideo_sink_register_dbus, from the connection on.
unfoldable pub register_on : Dbus → Option ℕ → VideoSink → Bool × VideoSink
register_on bus none sink = (false, record sink { connection_in_use = none })
register_on bus (some connection) sink =
    let using = record sink { connection_in_use = some connection } in
    if not (bus.exports connection sink.object_path) then (false, using) else (
      true,
      record using {
        exported = some (connection, sink.object_path);
        bus_name_token = bus.own_name connection sink.bus_name;
      },
    )

unfoldable pub register_dbus : Dbus → VideoSink → Bool × VideoSink
register_dbus bus sink = register_on bus (connect_to_dbus bus sink.dbus) sink

-- gst_pulsevideo_sink_deregister_dbus
pub deregister_dbus : VideoSink → VideoSink
deregister_dbus sink = record sink { bus_name_token = 0; exported = none; connection_in_use = none }

-- The transitions that the code tells apart.
pub data Transition : Type 0 where
  ready_to_paused paused_to_ready other_transition : Transition

module _ (bus : Dbus) (parent : Transition → VideoSink → StateChangeReturn × VideoSink) where
  abbrev before_parent : Transition → VideoSink → VideoSink
  before_parent paused_to_ready sink = deregister_dbus sink
  before_parent _ sink = sink

  abbrev after_parent : Transition → StateChangeReturn × VideoSink → StateChangeReturn × VideoSink
  after_parent ready_to_paused (result, sink) =
      let r = register_dbus bus sink in if not r.0 then (change_failure, r.1) else (result, r.1)
  after_parent _ (result, sink) = (result, sink)

  -- gst_pulsevideo_sink_change_state; the parent class, which changes the children's state, is a
  -- parameter.
  unfoldable pub change_state : Transition → VideoSink → StateChangeReturn × VideoSink
  change_state t sink =
      let r = parent t (before_parent t sink) in if is_failure r.0 then r else after_parent t r

-- How wait_get_caps ends: with the caps of the pad, or after its time, at the time of the last look.
pub data Waited : Type 0 where
  got_caps : ℕ → ℕ → Waited
  timed_out : ℕ → Waited
  still_waiting : Waited

-- g_usleep (10000), in microseconds.
abbrev pub poll_time : ℕ
poll_time = 10000

-- wait_get_caps, of a pad whose caps depend on the time; each sleep may last longer than it should.
module _ (current_caps : ℕ → Option ℕ) (oversleep : ℕ → ℕ) where
  pub wait_get_caps : ℕ → ℕ → ℕ → Waited
  wait_get_caps zero now end_time = still_waiting
  wait_get_caps (suc fuel) now end_time =
      let later = wait_get_caps fuel (now + poll_time + oversleep now) end_time in
      option_case (current_caps now) (if ltb end_time now then timed_out now else later)
        (λ caps. got_caps caps now)

-- 20 * G_TIME_SPAN_SECOND, and the rounds that are enough for it.
abbrev pub attach_time : ℕ
attach_time = 20000000

abbrev pub attach_rounds : ℕ
attach_rounds = 2003

-- What the caller of Attach gets: a descriptor and the caps of the stream, or an error.
pub data Reply : Type 0 where
  completed : ℕ → ℕ → Reply
  returned_gerror : Reply

-- The end of on_handle_attach: the reply, the sink, and which descriptors of the pair are still open in
-- this process.
pub record Attached : Type 0 where
  pub reply : Reply
  pub sink : VideoSink
  pub open_fds : List ℕ

-- What the calls of on_handle_attach answer: the pair of sockets, whether its first end becomes a
-- GSocket, and the variable of the injection point.
pub record Calls : Type 0 where
  pub socketpair : Option (ℕ × ℕ)
  pub is_socket : ℕ → Bool
  pub current_caps : ℕ → Option ℕ
  pub oversleep : ℕ → ℕ
  pub strtol : List ℕ → ℤ × List ℕ
  pub fault_injection : Bool
  pub getenv : Option (List ℕ)

-- The socket stays open as long as the multisocketsink has it.
abbrev pub held : ℕ → Sink → List ℕ
held fd s = option_case (hash_lookup fd s.handle_hash) [] (λ p. fd ∷ [])

abbrev pub reply_with : Reply → ℕ → VideoSink → Option Attached
reply_with reply ours sink =
    some (record { reply = reply; sink = sink; open_fds = held ours sink.socketsink })

-- After the injection point. A sleep has no part in the result; `none` is the end of the program.
pub after_fault : Injected → ℕ → ℕ → ℕ → VideoSink → Option Attached
after_fault (returned true cmds) ours theirs caps sink =
    reply_with (completed theirs caps) ours (record sink { pre_attach = record { cmds = cmds } })
after_fault (returned false cmds) ours theirs caps sink =
    reply_with returned_gerror ours (record sink { pre_attach = record { cmds = cmds } })
after_fault (slept n rest) ours theirs caps sink = after_fault rest ours theirs caps sink
after_fault aborted ours theirs caps sink = none
after_fault out_of_fuel ours theirs caps sink = none

module _ (calls : Calls) where
  pub after_wait : Waited → ℕ → ℕ → VideoSink → Option Attached
  after_wait (got_caps caps now) ours theirs sink =
      after_fault (inject_fault calls.strtol calls.fault_injection calls.getenv sink.pre_attach)
        ours theirs caps sink
  after_wait (timed_out now) ours theirs sink = reply_with returned_gerror ours sink
  after_wait still_waiting ours theirs sink = none

  -- With the two ends of a pair; `wall` is the time of day, and `now` the monotonic one.
  pub attach_pair : ℕ → ℕ → ℕ → ℕ → VideoSink → Option Attached
  attach_pair wall now ours theirs sink =
      let added = record sink { socketsink = add multi_socket wall ours sink.socketsink } in
      if not (calls.is_socket ours)
      then some (record { reply = returned_gerror; sink = sink; open_fds = [] })
      else after_wait
          (wait_get_caps calls.current_caps calls.oversleep attach_rounds now (now + attach_time))
          ours theirs added

  -- on_handle_attach
  pub on_handle_attach : ℕ → ℕ → VideoSink → Option Attached
  on_handle_attach wall now sink =
      option_case calls.socketpair
        (some (record { reply = returned_gerror; sink = sink; open_fds = [] }))
        (λ pair. attach_pair wall now pair.0 pair.1 sink)
