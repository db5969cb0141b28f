-- ===== src/MultiSocket/Stream/Fed.antt =====
-- A client that has found its place stays served, as long as its socket gives no error.
use pulsevideo.Base.{
  ℕ, zero, ◌≡◌, refl, subst, true, false, not, ◌&&◌, if_cases, option_cases, Option, none, some,
  List, [], ◌∷◌, ◌++◌, All, length, pos, minus_one, eqb_ℤ, min, arith,
}
use pulsevideo.MultiHandle.Types.{Client, Sink, Buffer, Caps, CapsOps, ok, is_flushing}
use pulsevideo.MultiHandle.Queue.{client_queue_buffer}
use pulsevideo.MultiSocket.{
  Answer, accepted, would_block, reset, broken, Pick, ready, idle, flushed, out_of_range, pick_case,
  at_index, take_buffer, grab, pick_by, pick, Written, to_send, after_write, before, write_loop,
}
use pulsevideo.MultiSocket.Stream.{owed}
use pulsevideo.MultiSocket.Stream.Conserve.{IsConserved, write_loop-IsConserved}
use pulsevideo.MultiSocket.Stream.Queued.{IsFed}

-- An answer that is no error.
abbrev pub IsFair : Answer → Type 0
IsFair (accepted n) = Unit {0}
IsFair would_block = Unit {0}
IsFair reset = zero ≡ 1
IsFair broken = zero ≡ 1

-- What of a client decides whether it goes on to be served.
Served : Sink → Client → Type 0
Served s c =
    (c.new_connection ≡ false)
    × (c.caps ≡ some s.caps)
    × (c.status ≡ ok)
    × (c.flushcount ≡ minus_one)

module _ (ops : CapsOps) (s : Sink) where
  PickServed : Pick → Type 0
  PickServed (ready d) = Served s d
  PickServed (idle d) = Served s d
  PickServed (flushed d) = zero ≡ 1
  PickServed out_of_range = Unit {0}

  WrittenServed : Option Written → Type 0
  WrittenServed none = Unit {0}
  WrittenServed (some w) = (w.result ≡ true) × Served s w.client

  not_flushed : (c : Client) → c.flushcount ≡ minus_one → eqb_ℤ c.flushcount (pos 0) ≡ false
  not_flushed c e = simp e refl

  take_buffer-Served : (c : Client) (b : Buffer) → Served s c → Served s (take_buffer ops s c b)
  unfolding take_buffer client_queue_buffer Served
  take_buffer-Served c b h = (h.0, refl, h.2, simp (h.3) refl)

  grab-PickServed : (c : Client) → Served s c → PickServed (grab ops s c)
  unfolding grab PickServed Served
  grab-PickServed c h =
      if_cases PickServed (eqb_ℤ c.flushcount (pos 0)) (λ t. let no = not_flushed c h.3 in cc)
        (λ f.
          option_cases PickServed (at_index s.bufqueue c.bufpos) (λ n. tt)
            (λ b e. take_buffer-Served c b h))

  pick-PickServed : (c : Client) → Served s c → PickServed (pick ops s c)
  unfolding pick pick_by PickServed Served
  pick-PickServed c h = by_sending c.sending
    where
      by_sending : (bs : List Buffer) → PickServed (pick_by ops bs s c)
      by_sending (b ∷ bs) = h
      by_sending [] =
          if_cases PickServed (eqb_ℤ c.bufpos minus_one)
            (λ t.
              if_cases PickServed (eqb_ℤ c.flushcount (pos 0))
                (λ f. let no = not_flushed c h.3 in cc) (λ f. h))
            (λ f.
              if_cases PickServed (c.new_connection && not (is_flushing c.status))
                (λ t. let placed = h.0 in ground (arith, t, placed)) (λ g. grab-PickServed c h))

  pick_case-Served :
      (p : Pick) (f g h : Client → Option Written)
      → PickServed p
      → ((d : Client) → Served s d → WrittenServed (f d))
      → ((d : Client) → Served s d → WrittenServed (g d))
      → WrittenServed (pick_case p f g h none)
  unfolding PickServed WrittenServed
  pick_case-Served (ready d) f g h a k l = k d a
  pick_case-Served (idle d) f g h a k l = l d a
  pick_case-Served (flushed d) f g h a k l = absurd (omega (arith, a))
  pick_case-Served out_of_range f g h a k l = tt

  before-Served :
      (bytes : List ℕ) (o : Option Written) → WrittenServed o → WrittenServed (before bytes o)
  unfolding before WrittenServed
  before-Served bytes none h = h
  before-Served bytes (some w) h = h

  write_loop-Served :
      (now : ℕ) (answers : List Answer) (c : Client)
      → All IsFair answers
      → Served s c
      → WrittenServed (write_loop ops now s answers c)
  unfolding write_loop after_write WrittenServed Served
  write_loop-Served now [] c a h =
      pick_case-Served _ _ _ _ (pick-PickServed c h) (λ d k. (refl, k)) (λ d k. (refl, k))
  write_loop-Served now (accepted n ∷ answers) c a h =
      pick_case-Served _ _ _ _ (pick-PickServed c h)
        (λ d k.
          before-Served _ _
            (write_loop-Served now answers (after_write now (min n (length (to_send d))) d) a.1 k))
        (λ d k. (refl, k))
  write_loop-Served now (would_block ∷ answers) c a h =
      pick_case-Served _ _ _ _ (pick-PickServed c h) (λ d k. (refl, k)) (λ d k. (refl, k))
  write_loop-Served now (reset ∷ answers) c a h = absurd (let no = a.0 in omega (arith, no))
  write_loop-Served now (broken ∷ answers) c a h = absurd (let no = a.0 in omega (arith, no))

  -- Whatever a socket without errors answers, the client goes on to be served: the call returns TRUE,
  -- and what was sent with what is owed is what was owed.
  pub write_loop-IsFed :
      (reflexive : (c : Caps) → ops.caps_is_equal c c ≡ true) (now : ℕ) (answers : List Answer)
      (c : Client)
      → All IsFair answers
      → IsFed s c
      → (w : Written) × (write_loop ops now s answers c ≡ some w)
        × (w.result ≡ true)
        × (w.sent ++ owed ops s w.client ≡ owed ops s c)
        × IsFed s w.client
  unfolding IsConserved WrittenServed Served
  write_loop-IsFed reflexive now answers c a f =
      let kept = write_loop-IsConserved ops s reflexive now answers c f.reader in
      let served =
        subst WrittenServed kept.1
          (write_loop-Served now answers c a (f.reader.placed, f.knows, f.healthy, f.unflushed)) in
      (
        kept.0,
        kept.1,
        served.0,
        kept.2,
        record {
          reader = kept.3;
          knows = served.1.1;
          healthy = served.1.2;
          unflushed = served.1.3;
        },
      )
