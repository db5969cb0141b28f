-- ===== src/Watchdog/Timer.antt =====
-- When the watchdog barks.
use pulsevideo.Base.{
  ℕ, zero, suc, ◌+◌, ◌<◌, ◌≡◌, ◌≢◌, refl, ap, ◌∙◌, Bool, true, false, not, ◌&&◌, ◌||◌,
  if◌then◌else◌, option_case, leb, ◌==◌, Option, none, some, List, [], ◌∷◌, arith,
}
use pulsevideo.Watchdog.{
  Source, Watchdog, feed, trigger, dispatch, Passing, sink_event, src_event, transform_ip, pass,
  disable,
}

-- The looks of the main loop at these times, in this order.
pub looks : List ℕ → Watchdog → Watchdog
looks [] watchdog = watchdog
looks (now ∷ ts) watchdog = looks ts (dispatch now watchdog)

-- Whether some of the times is at or after `due`.
pub any_late : ℕ → List ℕ → Bool
any_late due [] = false
any_late due (t ∷ ts) = leb due t || any_late due ts

-- A watchdog whose source is gone or was dispatched.
unfoldable pub IsSilent : Option Source → Type 0
IsSilent none = Unit {0}
IsSilent (some source) = source.attached ≡ false

dispatch-silent : (now : ℕ) (w : Watchdog) → IsSilent w.source → dispatch now w ≡ w
unfolding dispatch IsSilent
dispatch-silent now w h = quiet w.source h
  where
    quiet :
        (o : Option Source)
        → IsSilent o
        → option_case o w
            (λ source. if source.attached && leb source.due now then trigger source w else w)
          ≡ w
    quiet none h = refl
    quiet (some source) h = ap (λ b. if b && leb source.due now then trigger source w else w) h

pub looks-silent : (ts : List ℕ) (w : Watchdog) → IsSilent w.source → looks ts w ≡ w
unfolding looks
looks-silent [] w h = refl
looks-silent (t ∷ ts) w h = ap (looks ts) (dispatch-silent t w h) ∙ looks-silent ts w h

-- The source that a feed attaches.
abbrev pub waiting : ℕ → Watchdog → Watchdog
waiting due w = record w { source = some (record { due = due; attached = true }) }

-- The watchdog after the source was dispatched.
abbrev pub barked : ℕ → Watchdog → Watchdog
barked due w = record w {
  source = some (record { due = due; attached = false });
  posted = w.posted + 1;
}

dispatch-waiting :
    (due now : ℕ) (w : Watchdog)
    → dispatch now (waiting due w) ≡ (if leb due now then barked due w else waiting due w)
unfolding dispatch trigger
dispatch-waiting due now w = refl

pub looks-waiting :
    (due : ℕ) (ts : List ℕ) (w : Watchdog)
    → (looks ts (waiting due w)).posted ≡ w.posted + (if any_late due ts then 1 else 0)
unfolding looks any_late IsSilent
looks-waiting due [] w = omega arith
looks-waiting due (t ∷ ts) w =
    ap (λ v. (looks ts v).posted) (dispatch-waiting due t w)
    ∙ by_test (leb due t) (looks-waiting due ts w)
  where
    by_test :
        (b : Bool)
        → (looks ts (waiting due w)).posted ≡ w.posted + (if any_late due ts then 1 else 0)
        → (looks ts (if b then barked due w else waiting due w)).posted
          ≡ w.posted + (if b || any_late due ts then 1 else 0)
    by_test true h = ap (λ (v : Watchdog). v.posted) (looks-silent ts (barked due w) refl)
    by_test false h = h

is_armed : (n : ℕ) (b : Bool) → n ≢ 0 → b ≡ true → (not (n == 0) && b) ≡ true
is_armed zero b h e = absurd (h refl)
is_armed (suc n) b h e = ground arith

pub feed-waiting :
    (now : ℕ) (w : Watchdog)
    → w.timeout ≢ 0
    → w.main_context ≡ true
    → feed now w ≡ waiting (now + w.timeout) w
unfolding feed
feed-waiting now w n m =
    ap (λ b. if b then waiting (now + w.timeout) w else disable w) (is_armed w.timeout _ n m)

-- An element that runs, with a timeout that is not 0, and that is fed at the time `now`: however often
-- its thread looks before it is fed again, one error is posted if one of those looks is `timeout` or
-- more after the feed, and none otherwise.
pub looks-feed :
    (now : ℕ) (ts : List ℕ) (w : Watchdog)
    → w.timeout ≢ 0
    → w.main_context ≡ true
    → (looks ts (feed now w)).posted ≡ w.posted + (if any_late (now + w.timeout) ts then 1 else 0)
looks-feed now ts w n m =
    ap (λ v. (looks ts v).posted) (feed-waiting now w n m) ∙ looks-waiting (now + w.timeout) ts w

-- What happens to a running element: something passes through it, or its thread looks.
pub data Happening : Type 0 where
  passing : ℕ → Passing → Happening
  looking : ℕ → Happening

pub happen : List Happening → Watchdog → Watchdog
happen [] w = w
happen (passing now p ∷ hs) w = happen hs (pass now p w)
happen (looking now ∷ hs) w = happen hs (dispatch now w)

-- Every look comes less than `timeout` after the last thing that passed, starting with `due`, the end
-- of the wait that is running.
unfoldable pub IsTimely : ℕ → ℕ → List Happening → Type 0
IsTimely timeout due [] = Unit {0}
IsTimely timeout due (passing now p ∷ hs) = IsTimely timeout (now + timeout) hs
IsTimely timeout due (looking now ∷ hs) = (now < due) × IsTimely timeout due hs

pass-feed : (now : ℕ) (p : Passing) (w : Watchdog) → pass now p w ≡ feed now w
unfolding pass
pass-feed now sink_event w = refl
pass-feed now src_event w = refl
pass-feed now transform_ip w = refl

not_due : (due now : ℕ) → now < due → leb due now ≡ false
not_due due now h = ground arith

happen-waiting :
    (hs : List Happening) (due : ℕ) (w : Watchdog)
    → w.timeout ≢ 0
    → w.main_context ≡ true
    → IsTimely w.timeout due hs
    → (happen hs (waiting due w)).posted ≡ w.posted
unfolding happen IsTimely
happen-waiting [] due w n m h = refl
happen-waiting (passing now p ∷ hs) due w n m h =
    ap (λ v. (happen hs v).posted)
      (pass-feed now p (waiting due w) ∙ feed-waiting now (waiting due w) n m)
    ∙ happen-waiting hs (now + w.timeout) w n m h
happen-waiting (looking now ∷ hs) due w n m h =
    ap (λ v. (happen hs v).posted)
      (dispatch-waiting due now w
        ∙ ap (λ b. if b then barked due w else waiting due w) (not_due due now h.0))
    ∙ happen-waiting hs due w n m h.1

-- A running element, with a timeout that is not 0, posts no error as long as each look of its thread
-- comes less than the timeout after something that passed, whichever way: an event from either side
-- or a buffer.
pub happen-feed :
    (now : ℕ) (p : Passing) (hs : List Happening) (w : Watchdog)
    → w.timeout ≢ 0
    → w.main_context ≡ true
    → IsTimely w.timeout (now + w.timeout) hs
    → (happen (passing now p ∷ hs) w).posted ≡ w.posted
unfolding happen
happen-feed now p hs w n m h =
    ap (λ v. (happen hs v).posted) (pass-feed now p w ∙ feed-waiting now w n m)
    ∙ happen-waiting hs (now + w.timeout) w n m h
