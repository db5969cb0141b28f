-- ===== src/MultiSocket/Condition/Inside.antt =====
-- A client at -1 or at an index of the queue stays at such a position, and nothing is read outside the
-- queue, also where a new connection finds its place.
use pulsevideo.Base.{
  ℕ, zero, suc, ◌<◌, ◌≡◌, refl, sym, ap, ◌∙◌, subst, inl, inr, Bool, false, not, ◌&&◌,
  if◌then◌else◌, if_cases, option_case, Option, none, some, List, [], ◌∷◌, length, get_elem?-total,
  ℤ, pos, negsuc, minus_one, ◌-ℤ◌, -ℤ_parts, eqb_ℤ, leb_ℤ, min, arith,
}
use pulsevideo.MultiHandle.Types.{Client, Sink, Buffer, CapsOps, is_flushing}
use pulsevideo.MultiHandle.Position.{new_client_position}
use pulsevideo.MultiHandle.Position.Start.{IsPlaced, new_client_position-IsPlaced}
use pulsevideo.MultiHandle.Queue.{client_queue_buffer}
use pulsevideo.MultiHandle.Queue.Advance.{Inside}
use pulsevideo.MultiHandle.Clients.Placed.{IsAt}
use pulsevideo.MultiSocket.{
  Received, unknown, got, failed, read_loop, Answer, accepted, would_block, reset, broken, Pick,
  ready, idle, flushed, out_of_range, pick_case, at_index, take_buffer, grab, place, pick_by, pick,
  Written, to_send, after_write, before, write_loop,
}
use pulsevideo.MultiSocket.Condition.Kept.{Wrote}

pub read_loop-IsAt :
    (len : ℕ) (first : Bool) (rs : List Received) (c : Client)
    → IsAt len c
    → IsAt len (read_loop first rs c).1
unfolding read_loop
read_loop-IsAt len first [] c h =
    if_cases (λ (r : Bool × Client). IsAt len r.1) first (λ t. h) (λ f. h)
read_loop-IsAt len first (unknown ∷ rs) c h = h
read_loop-IsAt len first (failed ∷ rs) c h = h
read_loop-IsAt len first (got zero ∷ rs) c h =
    if_cases (λ (r : Bool × Client). IsAt len r.1) first (λ t. h) (λ f. h)
read_loop-IsAt len first (got (suc n) ∷ rs) c h = read_loop-IsAt len false rs c h

module _ (ops : CapsOps) (s : Sink) where
  -- A choice that reads nothing outside the queue.
  PickIsAt : Pick → Type 0
  PickIsAt (ready d) = IsAt (length s.bufqueue) d
  PickIsAt (idle d) = IsAt (length s.bufqueue) d
  PickIsAt (flushed d) = IsAt (length s.bufqueue) d
  PickIsAt out_of_range = zero ≡ 1

  take_buffer-IsAt :
      (c : Client) (n : ℕ) (b : Buffer)
      → c.bufpos ≡ pos n
      → n < length s.bufqueue
      → IsAt (length s.bufqueue) (take_buffer ops s c b)
  unfolding take_buffer client_queue_buffer Inside
  take_buffer-IsAt c n b h l =
      let parts = -ℤ_parts (pos n) (pos 1) in
      subst (λ x. Inside (length s.bufqueue) (x -ℤ pos 1)) (sym h)
        (omega (arith, parts), omega (arith, parts, l))

  grab-PickIsAt :
      (c : Client) (p : ℤ)
      → c.bufpos ≡ p
      → eqb_ℤ p minus_one ≡ false
      → Inside (length s.bufqueue) p
      → PickIsAt (grab ops s c)
  unfolding grab PickIsAt Inside
  grab-PickIsAt c (negsuc n) h f r = absurd (ground (arith, f, r.0))
  grab-PickIsAt c (pos n) h f r =
      let inside = r.1 in
      let lt : n < length s.bufqueue = omega (arith, inside) in
      let (b, found) = get_elem?-total s.bufqueue n lt in
      if_cases PickIsAt (eqb_ℤ c.flushcount (pos 0))
        (λ t. subst (Inside (length s.bufqueue)) (sym h) r)
        (λ g.
          subst (λ o. PickIsAt (option_case o out_of_range (λ x. ready (take_buffer ops s c x))))
            (sym (ap (at_index s.bufqueue) h ∙ found)) (take_buffer-IsAt c n b h lt))

  in_queue : (n : ℕ) → Inside (length s.bufqueue) (pos n) → n < length s.bufqueue
  unfolding Inside
  in_queue n r = let inside = r.1 in omega (arith, inside)

  no_index :
      (n : ℕ)
      → Inside (length s.bufqueue) (negsuc n)
      → eqb_ℤ (negsuc n) minus_one ≡ false
      → zero ≡ 1
  unfolding Inside
  no_index n r f = absurd (ground (arith, f, r.0))

  place-PickIsAt :
      (c : Client) (n : ℕ) → c.bufpos ≡ pos n → n < length s.bufqueue → PickIsAt (place ops s c)
  unfolding place PickIsAt Inside
  place-PickIsAt c n h l =
      by_place (new_client_position s.bufqueue c) (new_client_position-IsPlaced s.bufqueue c n h l)
    where
      by_place :
          (r : ℤ × Client)
          → IsPlaced s.bufqueue c r
          → PickIsAt (
              if leb_ℤ (pos 0) r.0
              then grab ops s (record r.1 { new_connection = false; bufpos = r.0 })
              else idle (record r.1 { source = false }))
      by_place (p, d) (inl (e, w)) =
          if_cases PickIsAt (leb_ℤ (pos 0) p) (λ t. absurd (ground (arith, e)))
            (λ f.
              subst (λ x. Inside (length s.bufqueue) x.bufpos) (sym w.1) (omega arith, omega arith))
      by_place (p, d) (inr (k, e, lt, same)) =
          if_cases PickIsAt (leb_ℤ (pos 0) p)
            (λ t.
              grab-PickIsAt _ p refl (ground (arith, e))
                (subst (Inside (length s.bufqueue)) (sym e) (omega arith, omega arith)))
            (λ f. absurd (ground (arith, e)))

  pick-PickIsAt : (c : Client) → IsAt (length s.bufqueue) c → PickIsAt (pick ops s c)
  unfolding pick pick_by PickIsAt
  pick-PickIsAt c h = by_sending c.sending
    where
      by_position :
          (p : ℤ)
          → c.bufpos ≡ p
          → Inside (length s.bufqueue) p
          → eqb_ℤ p minus_one ≡ false
          → PickIsAt (place ops s c)
      by_position (pos n) e r f = place-PickIsAt c n e (in_queue n r)
      by_position (negsuc n) e r f = absurd (let e = no_index n r f in omega (arith, e))

      by_sending : (bs : List Buffer) → PickIsAt (pick_by ops bs s c)
      by_sending (b ∷ bs) = h
      by_sending [] =
          if_cases PickIsAt (eqb_ℤ c.bufpos minus_one)
            (λ t. if_cases PickIsAt (eqb_ℤ c.flushcount (pos 0)) (λ f. h) (λ f. h))
            (λ f.
              if_cases PickIsAt (c.new_connection && not (is_flushing c.status))
                (λ t. by_position c.bufpos refl h f) (λ g. grab-PickIsAt c c.bufpos refl f h))

  pick_case-Wrote :
      (p : Pick) (f g h : Client → Option Written)
      → PickIsAt p
      → ((d : Client)
          → IsAt (length s.bufqueue) d
          → Wrote (zero ≡ 1) (IsAt (length s.bufqueue)) (f d))
      → ((d : Client)
          → IsAt (length s.bufqueue) d
          → Wrote (zero ≡ 1) (IsAt (length s.bufqueue)) (g d))
      → ((d : Client)
          → IsAt (length s.bufqueue) d
          → Wrote (zero ≡ 1) (IsAt (length s.bufqueue)) (h d))
      → Wrote (zero ≡ 1) (IsAt (length s.bufqueue)) (pick_case p f g h none)
  unfolding PickIsAt
  pick_case-Wrote (ready d) f g h a k l m = k d a
  pick_case-Wrote (idle d) f g h a k l m = l d a
  pick_case-Wrote (flushed d) f g h a k l m = m d a
  pick_case-Wrote out_of_range f g h a k l m = a

  before-Wrote :
      (bytes : List ℕ) (o : Option Written)
      → Wrote (zero ≡ 1) (IsAt (length s.bufqueue)) o
      → Wrote (zero ≡ 1) (IsAt (length s.bufqueue)) (before bytes o)
  unfolding before
  before-Wrote bytes none h = h
  before-Wrote bytes (some w) h = h

  -- From a position of the queue or -1, whatever the socket answers, handle_client_write reads nothing
  -- outside the queue, and leaves the client at such a position.
  pub write_loop-Wrote :
      (now : ℕ) (answers : List Answer) (c : Client)
      → IsAt (length s.bufqueue) c
      → Wrote (zero ≡ 1) (IsAt (length s.bufqueue)) (write_loop ops now s answers c)
  unfolding write_loop after_write
  write_loop-Wrote now [] c h =
      pick_case-Wrote _ _ _ _ (pick-PickIsAt c h) (λ d a. a) (λ d a. a) (λ d a. a)
  write_loop-Wrote now (accepted n ∷ answers) c h =
      pick_case-Wrote _ _ _ _ (pick-PickIsAt c h)
        (λ d a.
          before-Wrote _ _
            (write_loop-Wrote now answers (after_write now (min n (length (to_send d))) d) a))
        (λ d a. a) (λ d a. a)
  write_loop-Wrote now (would_block ∷ answers) c h =
      pick_case-Wrote _ _ _ _ (pick-PickIsAt c h) (λ d a. a) (λ d a. a) (λ d a. a)
  write_loop-Wrote now (reset ∷ answers) c h =
      pick_case-Wrote _ _ _ _ (pick-PickIsAt c h) (λ d a. a) (λ d a. a) (λ d a. a)
  write_loop-Wrote now (broken ∷ answers) c h =
      pick_case-Wrote _ _ _ _ (pick-PickIsAt c h) (λ d a. a) (λ d a. a) (λ d a. a)
