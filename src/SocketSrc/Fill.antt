-- ===== src/SocketSrc/Fill.antt =====
-- What fill of a socketsrc returns, through any number of closed connections.
use pulsevideo.Base.{
  ℕ, zero, suc, ◌≡◌, refl, ap, ◌∙◌, ◌<◌, ◌⊎◌, inl, inr, false, not, if_cases, option_cases, ◌==◌,
  none, some, List, [], ◌∷◌, ◌++◌, length, arith,
}
use pulsevideo.SocketSrc.{
  Flow, flow_ok, flow_eos, flow_flushing, flow_error, SocketSrc, Received, received,
  cancelled_error, other_error, Filled, receive_loop, fill,
}

-- `n` connections that the other end closes one after the other, and then an answer.
abbrev pub closed_before : ℕ → Received → List Received → List Received
closed_before zero r rs = r ∷ rs
closed_before (suc n) r rs = received [] [] ∷ closed_before n r rs

abbrev pub iterate {ℓ} : {A : Type ℓ} → (A → A) → ℕ → A → A
iterate f zero a = a
iterate f (suc n) a = iterate f n (f a)

module _ {ℓ} {W : Type ℓ} (element : W → SocketSrc) (on_socket_eos : W → W) where
  -- A result that the code allows: a buffer has bytes and comes from the socket that the element had
  -- when it was read; the end of the stream means that the handlers left no socket, or the one that
  -- was closed.
  unfoldable ByFlow : Flow → Filled W → Type 0
  ByFlow flow_ok r = (0 < length r.contents) × ((element r.world).socket ≡ r.last_socket)
  ByFlow flow_eos r = ((element r.world).socket ≡ none) ⊎ ((element r.world).socket ≡ r.last_socket)
  ByFlow flow_flushing r = Unit {0}
  ByFlow flow_error r = Unit {0}

  pub IsFilled : Filled W → Type 0
  unfolding ByFlow
  IsFilled r = ByFlow r.flow r

  receive_loop-IsFilled :
      (rs : List Received) (socket : ℕ) (ms : List ℕ) (w : W)
      → (element w).socket ≡ some socket
      → IsFilled (receive_loop element on_socket_eos rs socket ms w)
  unfolding receive_loop IsFilled ByFlow
  receive_loop-IsFilled [] socket ms w h = tt
  receive_loop-IsFilled (cancelled_error ∷ rs) socket ms w h = tt
  receive_loop-IsFilled (other_error ∷ rs) socket ms w h = tt
  receive_loop-IsFilled (received (b ∷ bs) m ∷ rs) socket ms w h = (omega arith, h)
  receive_loop-IsFilled (received [] m ∷ rs) socket ms w h =
      option_cases IsFilled (element (on_socket_eos w)).socket (λ n. inl n)
        (λ tmp e.
          let again = receive_loop-IsFilled rs tmp (ms ++ m) (on_socket_eos w) e in
          if_cases IsFilled (not (tmp == socket)) (λ t. again)
            (λ f. inr (e ∙ ap some (ground arith))))

  -- Whatever the socket answers and whatever the handlers of on-socket-eos do, a buffer that fill
  -- returns has a byte and comes from the socket that the element has by then, and fill ends the
  -- stream only where the handlers have left no socket or the one that was closed.
  pub fill-IsFilled : (rs : List Received) (w : W) → IsFilled (fill element on_socket_eos rs w)
  unfolding fill IsFilled ByFlow
  fill-IsFilled rs w =
      option_cases IsFilled (element w).socket (λ n. tt)
        (λ socket e. receive_loop-IsFilled rs socket [] w e)

  -- Whenever one of `n` connections is closed, starting with `socket`, the handlers leave a socket that
  -- is not the closed one.
  unfoldable pub AlwaysNew : ℕ → ℕ → W → Type 0
  AlwaysNew zero socket w = Unit {0}
  AlwaysNew (suc n) socket w =
      (new : ℕ) × ((element (on_socket_eos w)).socket ≡ some new)
      × ((new == socket) ≡ false)
      × AlwaysNew n new (on_socket_eos w)

  Delivers : (n : ℕ) → List ℕ → W → Filled W → Type ℓ
  Delivers n bytes w r =
      (r.flow ≡ flow_ok) × (r.contents ≡ bytes) × (r.world ≡ iterate on_socket_eos n w)

  receive_loop-Delivers :
      (n b : ℕ) (bs ms : List ℕ) (rs : List Received) (socket : ℕ) (w : W)
      → AlwaysNew n socket w
      → Delivers n (b ∷ bs) w (
          receive_loop element on_socket_eos
            (closed_before n (received (b ∷ bs) []) rs)
            socket
            ms
            w)
  unfolding receive_loop AlwaysNew Delivers
  receive_loop-Delivers zero b bs ms rs socket w h = (refl, refl, refl)
  receive_loop-Delivers (suc n) b bs ms rs socket w h =
      rw (h.1, h.2) (receive_loop-Delivers n b bs (ms ++ []) rs h.0 (on_socket_eos w) h.3)

  -- As long as the handlers of on-socket-eos replace each socket that the other end has closed, fill
  -- asks the new one, and returns the first bytes that one of them has, however many were closed
  -- before, after as many calls of the handlers.
  pub fill-again :
      (n b : ℕ) (bs : List ℕ) (rs : List Received) (socket : ℕ) (w : W)
      → (element w).socket ≡ some socket
      → AlwaysNew n socket w
      → let r = fill element on_socket_eos (closed_before n (received (b ∷ bs) []) rs) w in
        (r.flow ≡ flow_ok) × (r.contents ≡ b ∷ bs) × (r.world ≡ iterate on_socket_eos n w)
  unfolding fill Delivers
  fill-again n b bs rs socket w e h = rw e (receive_loop-Delivers n b bs [] rs socket w h)
