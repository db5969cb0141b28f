-- ===== src/MultiSocket/Read.antt =====
-- What reading from a client says of it.
use pulsevideo.Base.{ℕ, zero, suc, ◌≡◌, refl, ◌⊎◌, inl, inr, Bool, true, false, List, [], ◌∷◌}
use pulsevideo.MultiHandle.Types.{Client, closed, error}
use pulsevideo.MultiSocket.{Received, unknown, got, failed, read_loop, handle_client_read}

-- The three answers to a read: the client stays as it is, has closed its end, or has failed.
abbrev pub ReadOutcome : Client → Bool × Client → Type 0
ReadOutcome c r =
    (r ≡ (true, c))
    ⊎ ((r ≡ (false, record c { status = closed })) ⊎ (r ≡ (false, record c { status = error })))

-- A client that has sent something is not taken for closed.
read_loop_later :
    (rs : List Received) (c : Client)
    → (read_loop false rs c ≡ (true, c))
      ⊎ (read_loop false rs c ≡ (false, record c { status = error }))
unfolding read_loop
read_loop_later [] c = inl refl
read_loop_later (unknown ∷ rs) c = inl refl
read_loop_later (failed ∷ rs) c = inr refl
read_loop_later (got zero ∷ rs) c = inl refl
read_loop_later (got (suc n) ∷ rs) c = read_loop_later rs c

read_loop_outcome : (rs : List Received) (c : Client) → ReadOutcome c (read_loop true rs c)
unfolding read_loop
read_loop_outcome [] c = inr (inl refl)
read_loop_outcome (unknown ∷ rs) c = inl refl
read_loop_outcome (failed ∷ rs) c = inr (inr refl)
read_loop_outcome (got zero ∷ rs) c = inr (inl refl)
read_loop_outcome (got (suc n) ∷ rs) c = elim (read_loop_later rs c) [
  | inl e ↦ inl e
  | inr e ↦ inr (inr e)
]

-- Whatever the socket answers, handle_client_read returns TRUE and leaves the client as it is, or it
-- returns FALSE and gives the client the status CLOSED or ERROR and changes nothing else.
pub handle_client_read-ReadOutcome :
    (rs : List Received) (c : Client) → ReadOutcome c (handle_client_read rs c)
unfolding handle_client_read
handle_client_read-ReadOutcome rs c = read_loop_outcome rs c

-- A client that has sent at least one byte is never taken for closed by the same call of
-- handle_client_read: it stays as it is, or gets the status ERROR.
pub handle_client_read-got :
    (n : ℕ) (rs : List Received) (c : Client)
    → (handle_client_read (got (suc n) ∷ rs) c ≡ (true, c))
      ⊎ (handle_client_read (got (suc n) ∷ rs) c ≡ (false, record c { status = error }))
unfolding handle_client_read read_loop
handle_client_read-got n rs c = read_loop_later rs c
