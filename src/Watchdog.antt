-- ===== src/Watchdog.antt =====
-- gst/debugutils/gstwatchdog.c: an element that posts an error when nothing passes through it for a
-- while. Times are in milliseconds; the thread of the element looks at its main context again and
-- again, and each look is a call of `dispatch`.
pub mod Timer
pub mod States
use pulsevideo.Base.{
  ℕ, zero, suc, ◌+◌, Bool, true, false, not, ◌&&◌, if◌then◌else◌, option_case, ◌==◌, leb, Option,
  none, some, List, [], ◌∷◌,
}
use pulsevideo.Base.Element.{StateChangeReturn}

-- A timeout source: when it is due, and whether it is still attached, which it is until it has been
-- dispatched once.
pub record Source : Type 0 where
  pub due : ℕ
  pub attached : Bool

-- GstWatchdog. `main_context` tells whether there is one, with its main loop and thread; `posted` is
-- the number of errors that were posted.
pub record Watchdog : Type 0 where
  pub timeout : ℕ
  pub main_context : Bool
  pub source : Option Source
  pub posted : ℕ

-- The source destroyed and forgotten, in three places of the code.
abbrev pub disable : Watchdog → Watchdog
disable watchdog = record watchdog { source = none }

-- gst_watchdog_feed
pub feed : ℕ → Watchdog → Watchdog
feed now watchdog =
    if not (watchdog.timeout == 0) && watchdog.main_context
    then record (disable watchdog) {
      source = some (record { due = now + watchdog.timeout; attached = true });
    }
    else disable watchdog

-- gst_watchdog_set_property and gst_watchdog_get_property of the timeout.
pub set_timeout : ℕ → ℕ → Watchdog → Watchdog
set_timeout now timeout watchdog = feed now (record watchdog { timeout = timeout })

pub get_timeout : Watchdog → ℕ
get_timeout watchdog = watchdog.timeout

-- gst_watchdog_trigger, which returns FALSE: the main context drops the source, but the element
-- keeps its pointer.
pub trigger : Source → Watchdog → Watchdog
trigger source watchdog = record watchdog {
  source = some (record source { attached = false });
  posted = watchdog.posted + 1;
}

-- A look of the thread's main loop at its context: a source that is due is dispatched.
pub dispatch : ℕ → Watchdog → Watchdog
dispatch now watchdog =
    option_case watchdog.source watchdog (λ source.
      if source.attached && leb source.due now then trigger source watchdog else watchdog)

-- gst_watchdog_start and gst_watchdog_stop; the thread and its main loop come and go with the context.
pub start : Watchdog → Watchdog
start watchdog = record watchdog { main_context = true }

pub stop : Watchdog → Watchdog
stop watchdog = record (disable watchdog) { main_context = false }

-- gst_watchdog_sink_event, gst_watchdog_src_event and gst_watchdog_transform_ip do the same to the
-- element; the first two pass the event on to the parent class.
pub data Passing : Type 0 where
  sink_event src_event transform_ip : Passing

pub pass : ℕ → Passing → Watchdog → Watchdog
pass now sink_event watchdog = feed now watchdog
pass now src_event watchdog = feed now watchdog
pass now transform_ip watchdog = feed now watchdog

-- The transitions that the code tells apart.
pub data Transition : Type 0 where
  ready_to_paused paused_to_playing playing_to_paused other_transition : Transition

abbrev before_parent : ℕ → Transition → Watchdog → Watchdog
before_parent now ready_to_paused watchdog = feed now watchdog
before_parent now paused_to_playing watchdog = feed now watchdog
before_parent now playing_to_paused watchdog = watchdog
before_parent now other_transition watchdog = watchdog

abbrev after_parent : Transition → Watchdog → Watchdog
after_parent playing_to_paused watchdog = disable watchdog
after_parent _ watchdog = watchdog

-- gst_watchdog_change_state; the parent class, which calls start and stop, is a parameter.
pub change_state :
    (Transition → Watchdog → StateChangeReturn × Watchdog)
    → ℕ
    → Transition
    → Watchdog
    → StateChangeReturn × Watchdog
change_state parent now t watchdog =
    let r = parent t (before_parent now t watchdog) in (r.0, after_parent t r.1)
