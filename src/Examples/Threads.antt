-- ===== src/Examples/Threads.antt =====
-- Examples of the thread of a multisocketsink.
use pulsevideo.Base.{◌≡◌, refl, sym, ap, option_case, false, none, some, [], ◌∷◌, arith}
use pulsevideo.MultiHandle.Types.{Sink}
use pulsevideo.MultiHandle.Properties.{set_property, prop_timeout}
use pulsevideo.MultiSocket.Thread.{Iteration, unset, thread, serve, thread-serve, thread-freed}
use pulsevideo.Examples.{two_clients}

abbrev waiting : Sink
waiting = record two_clients { timeout = 100 }

-- Nothing but a wakeup; what stop does first; what the application does.
abbrev woken : Iteration
woken s = some s

abbrev stopping : Iteration
stopping s = some (record s { running = false })

abbrev untimed : Iteration
untimed s = some (set_property prop_timeout 0 s)

thread-serve_example :
    thread (woken ∷ stopping ∷ woken ∷ []) unset waiting
    ≡ serve (woken ∷ stopping ∷ woken ∷ []) waiting
thread-serve_example = thread-serve (woken ∷ stopping ∷ woken ∷ []) waiting (
  λ s t e. ap (λ o. option_case o s.timeout (λ (x : Sink). x.timeout)) (sym e),
  (
    λ s t e. ap (λ o. option_case o s.timeout (λ (x : Sink). x.timeout)) (sym e),
    (λ s t e. ap (λ o. option_case o s.timeout (λ (x : Sink). x.timeout)) (sym e), tt),
  ),
)

thread-freed_example : thread (untimed ∷ woken ∷ []) unset waiting ≡ none
unfolding set_property
thread-freed_example =
    thread-freed untimed woken [] waiting (set_property prop_timeout 0 waiting)
      (set_property prop_timeout 0 waiting) refl (omega arith) refl refl refl refl
