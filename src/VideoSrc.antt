-- ===== src/VideoSrc.antt =====
-- gst/gstpulsevideosrc.c: the source that asks a VideoSource2 on D-Bus for a socket, and asks again
-- when the other end closes it. A connection, caps, a file descriptor and a GSocket are numbers, their
-- identities; a name or a path is its list of characters. The answers of D-Bus come from a list, after
-- which a call is cancelled; g_bus_get_sync, g_socket_new_from_fd and g_variant_is_object_path are
-- parameters.
pub mod Connect
pub mod Reinit
pub mod Reconnect
use pulsevideo.Base.{
  ℕ, ◌+◌, Bool, true, false, not, ◌||◌, if◌then◌else◌, option_case, Option, none, some, List, [],
  ◌∷◌, ◌++◌,
}
use pulsevideo.Base.Element.{StateChangeReturn, change_failure}
use pulsevideo.SocketSrc.{SocketSrc, set_socket}

-- The codes of G_DBUS_ERROR that the source tells apart, and any other error.
pub data DbusCode : Type 0 where
  service_unknown no_reply spawn_child_exited spawn_child_signaled timed_out other_code : DbusCode

-- A GError of a call; `remote` is g_dbus_error_is_remote_error.
pub record DbusError : Type 0 where
  pub code : DbusCode
  pub remote : Bool

-- How a round of the loop of reinit ends: without a proxy, without an answer to Attach, or with the
-- caps and the file descriptors of the answer, none where its fdlist is NULL.
pub data Attempt : Type 0 where
  no_proxy : DbusError → Attempt
  no_attach : DbusError → Attempt
  attached : ℕ → List ℕ → Attempt

-- What GST_ELEMENT_ERROR and GST_ELEMENT_WARNING post.
pub data Posted : Type 0 where
  element_error element_warning : Posted

-- GstPulseVideoSrc and its children; `next_socket` is the next GSocket that is made, `leaked` holds
-- the descriptors that nothing owns any more, and `posted` the messages, the latest first; `crashed`
-- is set where reinit has read a NULL pointer, after which nothing that the source does means anything.
pub record VideoSrc : Type 0 where
  pub dbus : Option ℕ
  pub bus_name : List ℕ
  pub object_path : List ℕ
  pub socketsrc : SocketSrc
  pub do_timestamp : Bool
  pub capsfilter : Option ℕ
  pub next_socket : ℕ
  pub attempts : List Attempt
  pub leaked : List ℕ
  pub posted : List Posted
  pub crashed : Bool

pub data PvInitResult : Type 0 where
  init_success init_failure init_noobject : PvInitResult

-- gst_pulsevideo_src_set_property
pub set_dbus : Option ℕ → VideoSrc → VideoSrc
set_dbus conn src = record src { dbus = conn }

pub set_bus_name : List ℕ → VideoSrc → VideoSrc
set_bus_name name src = record src { bus_name = name }

pub set_object_path : (List ℕ → Bool) → List ℕ → VideoSrc → VideoSrc
set_object_path is_object_path path src =
    if is_object_path path then record src { object_path = path } else src

abbrev is_listed : DbusCode → Bool
is_listed service_unknown = false
is_listed no_reply = true
is_listed spawn_child_exited = true
is_listed spawn_child_signaled = true
is_listed timed_out = true
is_listed other_code = false

abbrev is_service_unknown : DbusCode → Bool
is_service_unknown service_unknown = true
is_service_unknown _ = false

unfoldable pub is_dbus_error_recoverable : DbusError → Bool
is_dbus_error_recoverable err =
    if is_service_unknown err.code then false else if err.remote then true else is_listed err.code

-- How the loop of reinit ends: with caps and descriptors, or with what reinit returns; and the answers
-- that are left.
pub data Connected : Type 0 where
  connected : ℕ → List ℕ → List Attempt → Connected
  gave_up : PvInitResult → Posted → List Attempt → Connected

-- while (1)
pub connect : List Attempt → Connected
connect [] = gave_up init_failure element_error []
connect (no_proxy err ∷ rest) =
    let again = connect rest in
    if is_dbus_error_recoverable err then again else gave_up init_failure element_error rest
connect (no_attach err ∷ rest) =
    let again = connect rest in
    if is_dbus_error_recoverable err then again else gave_up init_noobject element_warning rest
connect (attached caps fds ∷ rest) = connected caps fds rest

abbrev pub post : Posted → VideoSrc → VideoSrc
post x src = record src { posted = x ∷ src.posted }

-- The connection of the property, or the one that g_bus_get_sync gives.
abbrev pub first_some : Option ℕ → Option ℕ → Option ℕ
first_some (some c) o = some c
first_some none o = o

module _ (bus_get_sync : Option ℕ) (is_socket : ℕ → Bool) where
  -- From the descriptors on: g_socket_new_from_fd of the first. Where the answer brings none, fdlist
  -- and so fds are NULL, and fds[0] reads there: reinit does not return.
  pub use_fds : List ℕ → VideoSrc → Option PvInitResult × VideoSrc
  use_fds [] src = (none, record src { crashed = true })
  use_fds (fd ∷ fds) src =
      if is_socket fd
      then (
        some init_success,
        record src {
          socketsrc = set_socket (some src.next_socket) src.socketsrc;
          do_timestamp = true;
          next_socket = src.next_socket + 1;
          leaked = fds ++ src.leaked;
        },
      )
      else (some init_failure, post element_error (record src { leaked = fd ∷ fds ++ src.leaked }))

  pub use_connected : Connected → VideoSrc → Option PvInitResult × VideoSrc
  use_connected (connected caps fds rest) src =
      use_fds fds (record src { attempts = rest; capsfilter = some caps })
  use_connected (gave_up result posted rest) src =
      (some result, post posted (record src { attempts = rest }))

  -- gst_pulsevideo_src_reinit, of a cancellable that is cancelled or not.
  pub reinit : Bool → VideoSrc → Option PvInitResult × VideoSrc
  reinit cancelled src =
      if cancelled
      then (some init_noobject, src)
      else option_case (first_some src.dbus bus_get_sync)
          (some init_failure, post element_error src)
          (λ dbus. use_connected (connect src.attempts) src)

  -- The handler of the socketsrc's signal, which passes its own cancellable on.
  pub on_socket_eos : VideoSrc → VideoSrc
  on_socket_eos src = (reinit src.socketsrc.cancelled src).1

  abbrev is_success : PvInitResult → Bool
  is_success init_success = true
  is_success _ = false

  -- gst_pulsevideo_src_start; where reinit does not return it does not either.
  pub start : VideoSrc → Bool × VideoSrc
  start src =
      let r = reinit false src in
      option_case r.0 (false, r.1)
        (λ result. if is_success result then (true, r.1) else (false, post element_error r.1))

-- The transitions that the source tells apart.
pub data Transition : Type 0 where
  ready_to_paused paused_to_ready other_transition : Transition

module _ (bus_get_sync : Option ℕ) (is_socket : ℕ → Bool)
    (parent : Transition → StateChangeReturn) where
  abbrev before_parent : Transition → VideoSrc → Bool × VideoSrc
  before_parent ready_to_paused src = start bus_get_sync is_socket src
  before_parent paused_to_ready src = (true, src)
  before_parent other_transition src = (true, src)

  abbrev after_parent : Transition → VideoSrc → VideoSrc
  after_parent ready_to_paused src = src
  after_parent paused_to_ready src = record src { socketsrc = set_socket none src.socketsrc }
  after_parent other_transition src = src

  -- gst_pulsevideo_src_change_state; what the parent class answers is a parameter.
  pub change_state : Transition → VideoSrc → StateChangeReturn × VideoSrc
  change_state t src =
      let r = before_parent t src in
      if r.0 then (parent t, after_parent t r.1) else (change_failure, r.1)
