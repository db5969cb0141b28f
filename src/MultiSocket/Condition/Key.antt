-- ===== src/MultiSocket/Condition/Key.antt =====
-- The callbacks of the main loop leave the key of a client.
use pulsevideo.Base.{
  ℕ, zero, suc, refl, ◌∙◌, Bool, false, not, ◌&&◌, if_cases, option_cases, Option, none, some, List,
  [], ◌∷◌, length, eqb_ℤ, pos, minus_one, leb_ℤ, min,
}
use pulsevideo.MultiHandle.Types.{Client, Sink, Buffer, CapsOps, is_flushing}
use pulsevideo.MultiHandle.Position.{new_client_position}
use pulsevideo.MultiHandle.Position.Key.{SameKey, new_client_position_key}
use pulsevideo.MultiHandle.Queue.{client_queue_buffer}
use pulsevideo.MultiSocket.{
  Received, unknown, got, failed, read_loop, Answer, accepted, would_block, reset, broken, Pick,
  ready, idle, flushed, out_of_range, pick_case, at_index, take_buffer, grab, place, pick_by, pick,
  Written, to_send, after_write, before, write_loop,
}

pub read_loop_key :
    (first : Bool) (rs : List Received) (c : Client) → SameKey c (read_loop first rs c).1
unfolding read_loop
read_loop_key first [] c =
    if_cases (λ (r : Bool × Client). SameKey c r.1) first (λ t. (refl, refl, refl))
      (λ f. (refl, refl, refl))
read_loop_key first (unknown ∷ rs) c = (refl, refl, refl)
read_loop_key first (failed ∷ rs) c = (refl, refl, refl)
read_loop_key first (got zero ∷ rs) c =
    if_cases (λ (r : Bool × Client). SameKey c r.1) first (λ t. (refl, refl, refl))
      (λ f. (refl, refl, refl))
read_loop_key first (got (suc n) ∷ rs) c = read_loop_key false rs c

PickKey : Client → Pick → Type 0
PickKey c (ready d) = SameKey c d
PickKey c (idle d) = SameKey c d
PickKey c (flushed d) = SameKey c d
PickKey c out_of_range = Unit {0}

-- The client that handle_client_write leaves, if it leaves one.
unfoldable pub WrittenKey : Client → Option Written → Type 0
WrittenKey c none = Unit {0}
WrittenKey c (some w) = SameKey c w.client

module _ (ops : CapsOps) (s : Sink) where
  grab_key : (c d : Client) → SameKey c d → PickKey c (grab ops s d)
  unfolding grab PickKey take_buffer client_queue_buffer
  grab_key c d h =
      if_cases (PickKey c) (eqb_ℤ d.flushcount (pos 0)) (λ t. h)
        (λ f. option_cases (PickKey c) (at_index s.bufqueue d.bufpos) (λ n. tt) (λ b e. h))

  place_key : (c : Client) → PickKey c (place ops s c)
  unfolding place PickKey
  place_key c =
      if_cases (PickKey c) (leb_ℤ (pos 0) (new_client_position s.bufqueue c).0)
        (λ t. grab_key c _ (new_client_position_key s.bufqueue c))
        (λ f. new_client_position_key s.bufqueue c)

  pick_by_key : (bs : List Buffer) (c : Client) → PickKey c (pick_by ops bs s c)
  unfolding pick_by PickKey
  pick_by_key (b ∷ bs) c = (refl, refl, refl)
  pick_by_key [] c =
      if_cases (PickKey c) (eqb_ℤ c.bufpos minus_one)
        (λ t.
          if_cases (PickKey c) (eqb_ℤ c.flushcount (pos 0)) (λ u. (refl, refl, refl))
            (λ u. (refl, refl, refl)))
        (λ f.
          if_cases (PickKey c) (c.new_connection && not (is_flushing c.status)) (λ t. place_key c)
            (λ g. grab_key c c (refl, refl, refl)))

  pick_case_key :
      (c : Client) (p : Pick) (f g h : Client → Option Written)
      → PickKey c p
      → ((d : Client) → SameKey c d → WrittenKey c (f d))
      → ((d : Client) → SameKey c d → WrittenKey c (g d))
      → ((d : Client) → SameKey c d → WrittenKey c (h d))
      → WrittenKey c (pick_case p f g h none)
  unfolding PickKey WrittenKey
  pick_case_key c (ready d) f g h a k l m = k d a
  pick_case_key c (idle d) f g h a k l m = l d a
  pick_case_key c (flushed d) f g h a k l m = m d a
  pick_case_key c out_of_range f g h a k l m = tt

  before_key :
      (c d : Client) (bytes : List ℕ) (o : Option Written)
      → SameKey c d
      → WrittenKey d o
      → WrittenKey c (before bytes o)
  unfolding WrittenKey before
  before_key c d bytes none h k = tt
  before_key c d bytes (some w) h k = (k.0 ∙ h.0, k.1 ∙ h.1, k.2 ∙ h.2)

  pub write_loop_key :
      (now : ℕ) (answers : List Answer) (c : Client) → WrittenKey c (write_loop ops now s answers c)
  unfolding write_loop pick WrittenKey after_write
  write_loop_key now [] c =
      pick_case_key c _ _ _ _ (pick_by_key c.sending c) (λ d h. h) (λ d h. h) (λ d h. h)
  write_loop_key now (accepted n ∷ answers) c =
      pick_case_key c _ _ _ _ (pick_by_key c.sending c)
        (λ d h.
          before_key c (after_write now (min n (length (to_send d))) d) _ _ h
            (write_loop_key now answers (after_write now (min n (length (to_send d))) d)))
        (λ d h. h) (λ d h. h)
  write_loop_key now (would_block ∷ answers) c =
      pick_case_key c _ _ _ _ (pick_by_key c.sending c) (λ d h. h) (λ d h. h) (λ d h. h)
  write_loop_key now (reset ∷ answers) c =
      pick_case_key c _ _ _ _ (pick_by_key c.sending c) (λ d h. h) (λ d h. h) (λ d h. h)
  write_loop_key now (broken ∷ answers) c =
      pick_case_key c _ _ _ _ (pick_by_key c.sending c) (λ d h. h) (λ d h. h) (λ d h. h)
