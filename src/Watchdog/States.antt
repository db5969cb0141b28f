-- ===== src/Watchdog/States.antt =====
-- The timer of the watchdog through the changes of state.
use pulsevideo.Base.{◌≡◌}
use pulsevideo.Base.Element.{StateChangeReturn}
use pulsevideo.Watchdog.{Watchdog, Transition, playing_to_paused}

-- What the code relies on in the parent class: it leaves the element alone on the way from PLAYING to
-- PAUSED.
pub record IsParent (parent : Transition → Watchdog → StateChangeReturn × Watchdog) : Type 0 where
  pub pauses : (w : Watchdog) → (parent playing_to_paused w).1 ≡ w
