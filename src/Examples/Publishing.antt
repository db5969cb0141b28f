-- ===== src/Examples/Publishing.antt =====
-- Examples of the publishing side: attaching, registering, fault injection, files and properties.
use pulsevideo.Base.{
  ◌++◌, ℕ, suc, ◌+◌, ◌*◌, ◌-◌, ◌≡◌, refl, true, false, ◌&&◌, if◌then◌else◌, ltb, leb, none, some,
  Option, List, [], ◌∷◌, ℤ, pos, arith,
}
use pulsevideo.Base.Element.{StateChangeReturn, change_success}
use pulsevideo.Fault.{inject_fault}
use pulsevideo.Fault.Script.{
  Command, usleep, skip, abort, written, more, obey, IsRead, inject_fault-obey,
}
use pulsevideo.MultiHandle.Store.{hash_lookup}
use pulsevideo.VideoSink.{
  VideoSink, Calls, Dbus, wait_get_caps, attach_time, on_handle_attach, Transition, ready_to_paused,
}
use pulsevideo.VideoSink.Wait.{IsWaited, wait_get_caps-IsWaited}
use pulsevideo.VideoSink.Attach.{IsAttached, on_handle_attach-IsAttached}
use pulsevideo.VideoSink.Register.{Level, IsPublic, Reach-IsPublic, up}
use pulsevideo.VideoSink
use pulsevideo.VideoSink.Register
use pulsevideo.Examples.{two_clients}
use pulsevideo.Examples.Sinks.{two_clients-IsLinked}

-- The pad of a stream that starts three seconds after the client has attached.
abbrev late_caps : ℕ → Option ℕ
late_caps t = if ltb t 3000000 then none else some 8

wait_get_caps-IsWaited_example :
    IsWaited late_caps (λ t. 5) 50000 (wait_get_caps late_caps (λ t. 5) (suc 6) 0 50000)
wait_get_caps-IsWaited_example = wait_get_caps-IsWaited late_caps (λ t. 5) 6 0 50000 (omega arith)

-- The value of decimal digits, up to the first character that is none.
abbrev decimal : ℕ → List ℕ → ℕ × List ℕ
decimal n [] = (n, [])
decimal n (c ∷ cs) =
    let rest = decimal (10 * n + (c - 48)) cs in if leb 48 c && leb c 57 then rest else (n, c ∷ cs)

abbrev read_decimal : List ℕ → ℤ × List ℕ
read_decimal text = let r = decimal 0 text in (pos r.0, r.1)

-- usleep=25
abbrev nap : Command
nap = usleep (50 ∷ 53 ∷ []) 25

nap-IsRead : IsRead read_decimal nap
nap-IsRead = (omega arith, read)
  where
    read : (cs : List Command) → read_decimal ((50 ∷ 53 ∷ []) ++ more cs) ≡ (pos 25, more cs)
    read [] = refl
    read (c ∷ cs) = refl

inject_fault-obey_example :
    (inject_fault read_decimal true
        (some (written (skip ∷ nap ∷ abort ∷ [])))
        (record { cmds = none })
      ≡ obey (skip ∷ nap ∷ abort ∷ []))
    × (inject_fault read_decimal true none (record { cmds = some (more (skip ∷ nap ∷ abort ∷ [])) })
        ≡ obey (skip ∷ nap ∷ abort ∷ []))
inject_fault-obey_example =
    inject_fault-obey read_decimal (skip ∷ nap ∷ abort ∷ []) none (tt, (nap-IsRead, (tt, tt)))

abbrev publisher : VideoSink
publisher = record {
  dbus = some 1;
  bus_name = 2;
  object_path = 3;
  connection_in_use = none;
  bus_name_token = 0;
  exported = none;
  interface_caps = 8;
  capsfilter = 8;
  socketsink = two_clients;
  pre_attach = record { cmds = none };
}

abbrev answering : Calls
answering = record {
  socketpair = some (40, 41);
  is_socket = λ fd. true;
  current_caps = late_caps;
  oversleep = λ t. 5;
  strtol = read_decimal;
  fault_injection = false;
  getenv = none;
}

on_handle_attach-IsAttached_example :
    IsAttached answering 100 40 41 two_clients (on_handle_attach answering 7 100 publisher)
unfolding hash_lookup
on_handle_attach-IsAttached_example =
    on_handle_attach-IsAttached answering 100 40 41 publisher 7 refl refl refl refl refl
      two_clients-IsLinked

-- A bus on which every export works.
abbrev session_bus : Dbus
session_bus = record {
  starter = none;
  session = some 1;
  exports = λ c p. true;
  own_name = λ c n. 9;
}

abbrev quiet_parent : Transition → VideoSink → StateChangeReturn × VideoSink
quiet_parent t s = (change_success, s)

-- The way to PAUSED.
Reach-IsPublic_example :
    IsPublic Level.paused
      (VideoSink.change_state session_bus quiet_parent ready_to_paused publisher).1
unfolding IsPublic VideoSink.change_state VideoSink.register_dbus VideoSink.register_on
    VideoSink.connect_to_dbus
Reach-IsPublic_example =
    Reach-IsPublic session_bus quiet_parent (λ c n e. omega (arith, e)) (λ t s. (refl, refl, refl))
      {l = Level.ready} {s = publisher}
      (VideoSink.Register.next VideoSink.Register.here (up refl refl)) (refl, refl)
