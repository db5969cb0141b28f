-- ===== src/Examples/Sources.antt =====
-- Examples of the receiving side, the watchdog and the size check.
use pulsevideo.Base.{
  ℕ, ◌+◌, ◌≡◌, ◌≢◌, refl, true, false, none, some, Option, [], ◌∷◌, All, length, if◌then◌else◌,
  arith,
}
use pulsevideo.Base.Element.{StateChangeReturn, change_success}
use pulsevideo.SocketSrc.{SocketSrc, received, flow_ok, fill, set_socket}
use pulsevideo.SocketSrc.Fill.{IsFilled, fill-IsFilled, closed_before}
use pulsevideo.VideoSrc.{
  VideoSrc, DbusError, no_proxy, no_attach, no_reply, other_code, reinit, on_socket_eos,
  is_dbus_error_recoverable,
}
use pulsevideo.VideoSrc.Reinit.{Ended, reinit-Ended}
use pulsevideo.VideoSrc.Reconnect.{Restart, answers, fill-restarts}
use pulsevideo.Watchdog.{
  Watchdog, feed, transform_ip, src_event, Transition, ready_to_paused, paused_to_playing,
  playing_to_paused, other_transition, start, stop,
}
use pulsevideo.Watchdog.Timer.{
  any_late, looks, waiting, looks-feed, passing, looking, happen, happen-feed, IsTimely,
}
use pulsevideo.RawVideoValidate.{init, new_caps, buffer, passed, Fits, passed-Fits}

-- The remote object answers with an error of its own; the service does not answer.
abbrev remote_error : DbusError
remote_error = record { code = other_code; remote = true }

abbrev silence : DbusError
silence = record { code = no_reply; remote = false }

abbrev crash : Restart
crash = record {
  errors = no_proxy silence ∷ no_attach remote_error ∷ [];
  caps = 8;
  fd = 30;
  others = 31 ∷ [];
}

abbrev receiving : SocketSrc
receiving = record { socket = some 3; cancelled = false }

abbrev source : VideoSrc
source = record {
  dbus = some 1;
  bus_name = [];
  object_path = [];
  socketsrc = receiving;
  do_timestamp = true;
  capsfilter = some 8;
  next_socket = 4;
  attempts = answers (crash ∷ crash ∷ []) [];
  leaked = [];
  posted = [];
  crashed = false;
}

fill-restarts_example :
    let r =
      fill
        (λ (s : VideoSrc). s.socketsrc)
        (on_socket_eos none (λ fd. true))
        (closed_before 2 (received (7 ∷ []) []) [])
        source in
    (r.flow ≡ flow_ok) × (r.contents ≡ 7 ∷ []) × (r.world.attempts ≡ [])
unfolding is_dbus_error_recoverable
fill-restarts_example =
    fill-restarts none (λ fd. true) 1 3 (crash ∷ crash ∷ []) [] source
      (record { running = refl; bus = refl; current = refl; old = omega arith }) refl
      (((refl, (refl, tt)), refl), (((refl, (refl, tt)), refl), tt)) 7 [] []

reinit-Ended_example : Ended source (reinit none (λ fd. true) false source)
reinit-Ended_example = reinit-Ended none (λ fd. true) false source

fill-IsFilled_example :
    IsFilled
      (λ (s : SocketSrc). s)
      (set_socket (some 4))
      (fill
        (λ (s : SocketSrc). s)
        (set_socket (some 4))
        (received [] [] ∷ received (7 ∷ []) [] ∷ [])
        receiving)
fill-IsFilled_example =
    fill-IsFilled (λ (s : SocketSrc). s) (set_socket (some 4))
      (received [] [] ∷ received (7 ∷ []) [] ∷ []) receiving

-- A watchdog of one second.
abbrev running : Watchdog
running = record { timeout = 1000; main_context = true; source = none; posted = 0 }

abbrev stopped : Watchdog
stopped = record running { main_context = false }

one_second : ◌≢◌ {A = ℕ} 1000 0
one_second e = omega (arith, e)

looks-feed_example :
    (looks (400 ∷ 1100 ∷ 1200 ∷ []) (feed 50 running)).posted
    ≡ 0 + (if any_late (50 + 1000) (400 ∷ 1100 ∷ 1200 ∷ []) then 1 else 0)
looks-feed_example = looks-feed 50 (400 ∷ 1100 ∷ 1200 ∷ []) running one_second refl

happen-feed_example :
    (happen
      (passing 50 transform_ip ∷ looking 1000 ∷ passing 1040 src_event ∷ looking 2000 ∷ [])
      running).posted
    ≡ 0
unfolding IsTimely
happen-feed_example =
    happen-feed 50 transform_ip (looking 1000 ∷ passing 1040 src_event ∷ looking 2000 ∷ []) running
      one_second refl (omega arith, (omega arith, tt))

-- The same watchdog with a timer that is due at 1050.
abbrev armed : Watchdog
armed = waiting 1050 running

-- A parent class that does what the code relies on.
abbrev parent : Transition → Watchdog → StateChangeReturn × Watchdog
parent ready_to_paused w = (change_success, start w)
parent paused_to_playing w = (change_success, w)
parent playing_to_paused w = (change_success, w)
parent other_transition w = (change_success, stop w)

-- Caps that ask for two bytes, and buffers of which one is too short.
abbrev pair_caps : ℕ → Option ℕ
pair_caps c = some 2

passed-Fits_example :
    All
      (λ p. Fits pair_caps p.0 (length p.1))
      (passed pair_caps (new_caps 1 ∷ buffer (5 ∷ 6 ∷ []) ∷ buffer (7 ∷ []) ∷ []) init)
passed-Fits_example =
    passed-Fits pair_caps (new_caps 1 ∷ buffer (5 ∷ 6 ∷ []) ∷ buffer (7 ∷ []) ∷ [])
