-- ===== src/Fault.antt =====
-- gst/fault.h: faults that an environment variable asks for, a word for each call. A character is its
-- code. The variable (getenv) and strtol are parameters; a call of raise (SIGABRT) ends the program.
pub mod Script
use pulsevideo.Base.{
  ℕ, zero, suc, ◌+◌, ℤ, Bool, true, false, not, if◌then◌else◌, option_case, ◌==◌, Option, none,
  some, List, [], ◌∷◌, length, to_u32, to_u64, to_gint,
}

abbrev pub space : ℕ
space = 32

abbrev pub usleep_word : List ℕ
usleep_word = 117 ∷ 115 ∷ 108 ∷ 101 ∷ 101 ∷ 112 ∷ 61 ∷ []

abbrev pub gerror_word : List ℕ
gerror_word = 103 ∷ 101 ∷ 114 ∷ 114 ∷ 111 ∷ 114 ∷ []

abbrev pub abort_word : List ℕ
abort_word = 97 ∷ 98 ∷ 111 ∷ 114 ∷ 116 ∷ []

abbrev pub skip_word : List ℕ
skip_word = 115 ∷ 107 ∷ 105 ∷ 112 ∷ []

-- memcmp with a word, and the text after it.
abbrev pub strip : List ℕ → List ℕ → Option (List ℕ)
strip [] text = some text
strip (w ∷ ws) [] = none
strip (w ∷ ws) (c ∷ cs) = let rest = strip ws cs in if w == c then rest else none

-- How a call ends: with its result and the text that it leaves in the point, after some sleeps, or with the end of
-- the program.
pub data Injected : Type 0 where
  returned : Bool → Option (List ℕ) → Injected
  slept : ℕ → Injected → Injected
  aborted : Injected
  out_of_fuel : Injected

-- struct FaultInjectionPoint: `cmds` is none before the first call.
pub record FaultPoint : Type 0 where
  pub cmds : Option (List ℕ)

-- int duration_us = strtol (...), and the gulong that g_usleep gets of it.
unfoldable pub duration : ℤ → ℕ
duration n = to_u64 (to_gint (to_u32 n))

module _ (strtol : List ℕ → ℤ × List ℕ) where
  -- The last two tests of a word.
  abbrev skip_or_ignore : List ℕ → Injected
  skip_or_ignore text =
      option_case (strip skip_word text) (returned true (some []))
        (λ rest. returned true (some rest))

  abbrev one_word : List ℕ → Injected
  one_word text =
      option_case (strip gerror_word text)
        (option_case (strip abort_word text) (skip_or_ignore text) (λ rest. aborted))
        (λ rest. returned false (some rest))

  -- The while loop: each round takes a character at least.
  pub inject_loop : ℕ → List ℕ → Injected
  inject_loop zero text = out_of_fuel
  inject_loop (suc fuel) [] = returned true (some [])
  inject_loop (suc fuel) (c ∷ cs) =
      let spaced = inject_loop fuel cs in
      if c == space
      then spaced
      else option_case (strip usleep_word (c ∷ cs)) (one_word (c ∷ cs))
          (λ rest. slept (duration (strtol rest).0) (inject_loop fuel (strtol rest).1))

  abbrev commands : Option (List ℕ) → FaultPoint → List ℕ
  commands getenv p = option_case p.cmds (option_case getenv [] (λ text. text)) (λ text. text)

  -- inject_fault
  unfoldable pub inject_fault : Bool → Option (List ℕ) → FaultPoint → Injected
  inject_fault enabled getenv p =
      if not enabled
      then returned true p.cmds
      else inject_loop (length (commands getenv p) + 1) (commands getenv p)
