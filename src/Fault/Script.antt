-- ===== src/Fault/Script.antt =====
-- A list of commands, written as the comment of gst/fault.h says, and what the calls make of it.
use pulsevideo.Base.{
  ℤ, ℕ, zero, suc, ◌+◌, ◌<◌, ◌≡◌, refl, ap, ◌∙◌, pos, two_31, to_u32, to_u64, to_gint, true, false,
  Option, none, some, List, [], ◌∷◌, ◌++◌, length, length-append, All, arith,
}
use pulsevideo.Fault.{
  space, usleep_word, gerror_word, abort_word, skip_word, Injected, returned, slept, aborted,
  duration, inject_loop, inject_fault,
}

-- The commands; that of a sleep has its number as it is written and as it is read.
pub data Command : Type 0 where
  usleep : List ℕ → ℕ → Command
  skip gerror abort : Command

abbrev pub word : Command → List ℕ
word (usleep digits n) = usleep_word ++ digits
word skip = skip_word
word gerror = gerror_word
word abort = abort_word

-- The commands that follow a word, each after a space.
abbrev pub more : List Command → List ℕ
more [] = []
more (c ∷ cs) = space ∷ word c ++ more cs

-- The value of the environment variable.
abbrev pub written : List Command → List ℕ
written [] = []
written (c ∷ cs) = word c ++ more cs

-- What one call does: sleeps are over at once, any other command takes up the call.
abbrev pub obey : List Command → Injected
obey [] = returned true (some [])
obey (usleep digits n ∷ cs) = slept n (obey cs)
obey (skip ∷ cs) = returned true (some (more cs))
obey (gerror ∷ cs) = returned false (some (more cs))
obey (abort ∷ cs) = aborted

duration_small : (n : ℕ) → n < two_31 → duration (pos n) ≡ n
unfolding duration to_u64 to_gint to_u32
duration_small n h = ground arith

module _ (strtol : List ℕ → ℤ × List ℕ) where
  -- strtol reads the number of a sleep, which an int can hold, up to the end of the text or the next
  -- space.
  abbrev pub IsRead : Command → Type 0
  IsRead (usleep digits n) =
      (n < two_31) × ((cs : List Command) → strtol (digits ++ more cs) ≡ (pos n, more cs))
  IsRead skip = Unit {0}
  IsRead gerror = Unit {0}
  IsRead abort = Unit {0}

  inject_loop-obey :
      (fuel : ℕ) (cs : List Command)
      → length (more cs) < fuel
      → All IsRead cs
      → inject_loop strtol fuel (more cs) ≡ obey cs
  unfolding inject_loop
  inject_loop-obey zero cs h r = absurd (omega arith)
  inject_loop-obey (suc fuel) [] h r = refl
  inject_loop-obey (suc zero) (c ∷ cs) h r = absurd (omega arith)
  inject_loop-obey (suc (suc fuel)) (usleep digits n ∷ cs) h r =
      let shorter = length-append digits (more cs) in
      ap (λ t. slept (duration t.0) (inject_loop strtol fuel t.1)) (r.0.1 cs)
      ∙ ap (λ d. slept d (inject_loop strtol fuel (more cs))) (duration_small n r.0.0)
      ∙ ap (slept n) (inject_loop-obey fuel cs (omega (arith, h, shorter)) r.1)
  inject_loop-obey (suc (suc fuel)) (skip ∷ cs) h r = refl
  inject_loop-obey (suc (suc fuel)) (gerror ∷ cs) h r = refl
  inject_loop-obey (suc (suc fuel)) (abort ∷ cs) h r = refl

  inject_loop-written :
      (fuel : ℕ) (cs : List Command)
      → length (written cs) < fuel
      → All IsRead cs
      → inject_loop strtol fuel (written cs) ≡ obey cs
  unfolding inject_loop
  inject_loop-written zero cs h r = absurd (omega arith)
  inject_loop-written (suc fuel) [] h r = refl
  inject_loop-written (suc fuel) (c ∷ cs) h r =
      inject_loop-obey (suc (suc fuel)) (c ∷ cs) (omega (arith, h)) r

  -- Where fault injection is built in, and strtol reads the numbers of the sleeps, which are below
  -- 2 ^ 31, the first call does what the commands of the variable say, up to the first that is no
  -- sleep, and leaves the rest; a later call does the same with what is left. No call runs out of
  -- rounds.
  pub inject_fault-obey :
      (cs : List Command) (getenv : Option (List ℕ))
      → All IsRead cs
      → (inject_fault strtol true (some (written cs)) (record { cmds = none }) ≡ obey cs)
        × (inject_fault strtol true getenv (record { cmds = some (more cs) }) ≡ obey cs)
  unfolding inject_fault
  inject_fault-obey cs getenv r = (
    inject_loop-written (length (written cs) + 1) cs (omega arith) r,
    inject_loop-obey (length (more cs) + 1) cs (omega arith) r,
  )
