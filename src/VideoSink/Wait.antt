-- ===== src/VideoSink/Wait.antt =====
-- The wait for the caps of the pad.
use pulsevideo.Base.{
  ℕ, zero, suc, ◌+◌, ◌*◌, ◌<◌, ◌≡◌, if_cases, ltb, option_cases, Option, none, some, arith,
}
use pulsevideo.VideoSink.{Waited, got_caps, timed_out, still_waiting, poll_time, wait_get_caps}

module _ (current_caps : ℕ → Option ℕ) (oversleep : ℕ → ℕ) where
  -- What each way to end tells of the pad.
  unfoldable pub IsWaited : ℕ → Waited → Type 0
  IsWaited end_time (got_caps caps t) = current_caps t ≡ some caps
  IsWaited end_time (timed_out t) = (current_caps t ≡ none) × (end_time < t)
  IsWaited end_time still_waiting = zero ≡ 1

  -- However long each sleep lasts, wait_get_caps ends once its rounds cover the time that is left: with
  -- the caps that the pad has, or after the end time, while the pad has none.
  pub wait_get_caps-IsWaited :
      (fuel now end_time : ℕ)
      → end_time < now + fuel * poll_time
      → IsWaited end_time (wait_get_caps current_caps oversleep (suc fuel) now end_time)
  unfolding wait_get_caps IsWaited
  wait_get_caps-IsWaited zero now end_time h =
      option_cases (IsWaited end_time) (current_caps now)
        (λ e.
          if_cases (IsWaited end_time) (ltb end_time now) (λ t. (e, ground arith))
            (λ f. absurd (ground arith)))
        (λ caps e. e)
  wait_get_caps-IsWaited (suc fuel) now end_time h =
      let later =
        wait_get_caps-IsWaited fuel (now + poll_time + oversleep now) end_time (omega (arith, h)) in
      option_cases (IsWaited end_time) (current_caps now)
        (λ e. if_cases (IsWaited end_time) (ltb end_time now) (λ t. (e, ground arith)) (λ f. later))
        (λ caps e. e)
