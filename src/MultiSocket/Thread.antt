-- ===== src/MultiSocket/Thread.antt =====
-- gst_multi_socket_sink_thread: the loop around the main context, and the source that it makes for the
-- timeout.
use pulsevideo.Base.{
  zero, ◌<◌, ◌≡◌, refl, ap, ◌∙◌, Bool, true, false, not, if◌then◌else◌, Bool-cases, Option-cases,
  inl, inr, option_case, ltb, Option, none, some, List, [], ◌∷◌, All, arith,
}
use pulsevideo.MultiHandle.Types.{Sink}

-- The variable `timeout`: NULL, a source, or the address of a source that was given back.
pub data Timer : Type 0 where
  unset alive freed : Timer

-- A call of g_main_context_iteration: the callbacks that it makes, and what the other threads do
-- meanwhile; `none` where a callback does not return.
abbrev pub Iteration : Type 0
Iteration = Sink → Option Sink

-- if (timeout) g_source_destroy and g_source_unref: `none` is the use of a source that is no more.
pub give_back : Timer → Option Timer
give_back unset = some unset
give_back alive = some freed
give_back freed = none

-- One round of the while loop.
pub thread_round : Iteration → Timer → Sink → Option (Timer × Sink)
thread_round iteration timer s =
    let timeout = if ltb 0 s.timeout then alive else timer in
    option_case (iteration s) none
      (λ t. option_case (give_back timeout) none (λ after. some (after, t)))

-- The while loop, through the iterations that come: whether the thread has returned, and the sink.
pub thread : List Iteration → Timer → Sink → Option (Bool × Sink)
thread [] timer s = some (not s.running, s)
thread (iteration ∷ is) timer s =
    let rest = option_case (thread_round iteration timer s) none (λ r. thread is r.0 r.1) in
    if not s.running then some (true, s) else rest

-- What the loop is for: iterations as long as the sink runs.
pub serve : List Iteration → Sink → Option (Bool × Sink)
serve [] s = some (not s.running, s)
serve (iteration ∷ is) s =
    let rest = option_case (iteration s) none (λ t. serve is t) in
    if not s.running then some (true, s) else rest

-- An iteration during which nobody sets the timeout.
abbrev pub KeepsTimeout : Iteration → Type 0
KeepsTimeout f = (s t : Sink) → f s ≡ some t → t.timeout ≡ s.timeout

-- A timer that the next round does not use after it was freed.
Usable : Timer → Sink → Type 0
Usable unset s = Unit {0}
Usable alive s = zero ≡ 1
Usable freed s = ltb 0 s.timeout ≡ true

round_returns :
    (f : Iteration) (timer : Timer) (s t : Sink)
    → Usable timer s
    → f s ≡ some t
    → t.timeout ≡ s.timeout
    → (after : Timer) × (thread_round f timer s ≡ some (after, t)) × Usable after t
unfolding thread_round give_back Usable
round_returns f unset s t u e k = elim (Bool-cases (ltb 0 s.timeout)) [
  | inl b ↦ (freed, rw (b, e) refl, ap (ltb 0) k ∙ b)
  | inr b ↦ (unset, rw (b, e) refl, tt)
]
round_returns f alive s t u e k = absurd (omega (arith, u))
round_returns f freed s t u e k = (freed, rw (u, e) refl, ap (ltb 0) k ∙ u)

no_round : (f : Iteration) (timer : Timer) (s : Sink) → f s ≡ none → thread_round f timer s ≡ none
unfolding thread_round
no_round f timer s n = rw n refl

rounds_serve :
    (is : List Iteration) (timer : Timer) (s : Sink)
    → Usable timer s
    → All KeepsTimeout is
    → thread is timer s ≡ serve is s
unfolding thread serve
rounds_serve [] timer s u a = refl
rounds_serve (f ∷ is) timer s u a = elim (Option-cases (f s)) [
  | inl n ↦ let stuck : thread_round f timer s ≡ none = no_round f timer s n in rw (stuck, n) refl
  | inr (t, e) ↦
      let (after, round, usable) = round_returns f timer s t u e (a.0 s t e) in
      let rest = rounds_serve is after t usable a.1 in
      rw (round, e) (ap (λ r. if not s.running then some (true, s) else r) rest)
]

-- As long as nobody sets the timeout while the sink runs, the thread never uses the source of an
-- earlier round: it is the loop that iterates as long as the sink runs, and returns then.
pub thread-serve :
    (is : List Iteration) (s : Sink) → All KeepsTimeout is → thread is unset s ≡ serve is s
unfolding Usable
thread-serve is s a = rounds_serve is unset s tt a

-- A thread that has iterated with a timeout, and goes on without one, uses the source of the round
-- before, which it has given back: where the sink runs, the timeout is set to 0 during the first of two
-- iterations that return, and the sink goes on to run.
pub thread-freed :
    (f g : Iteration) (is : List Iteration) (s t u : Sink)
    → s.running ≡ true
    → 0 < s.timeout
    → f s ≡ some t
    → t.running ≡ true
    → t.timeout ≡ 0
    → g t ≡ some u
    → thread (f ∷ g ∷ is) unset s ≡ none
unfolding thread thread_round give_back
thread-freed f g is s t u r p e r2 z e2 =
    let on : ltb 0 s.timeout ≡ true = ground arith in
    let off : ltb 0 t.timeout ≡ false = ground arith in
    let first : thread_round f unset s ≡ some (freed, t) = simp (on, e) refl in
    let second : thread_round g freed t ≡ none = simp (off, e2) refl in
    simp (r, first, r2, second) refl
