-- ===== src/MultiSocket/Stream/Conserve.antt =====
-- handle_client_write loses, repeats and invents no byte, and never reads outside the queue.
use pulsevideo.Base.{
  ℕ, zero, ◌≡◌, refl, sym, ap, ◌∙◌, subst, Bool, true, false, not, ◌&&◌, if_cases, option_case,
  Option, none, some, List, [], ◌∷◌, ◌++◌, append_assoc, length, take, get_elem?-total, ℤ, pos,
  negsuc, minus_one, ◌-ℤ◌, -ℤ_parts, ◌<ℤ◌, eqb_ℤ, min, arith,
}
use pulsevideo.MultiHandle.Types.{
  Client, ClientStatus, Sink, Buffer, Caps, CapsOps, is_flushing, removed, closed, error,
}
use pulsevideo.MultiHandle.Queue.{client_queue_buffer, send_streamheader}
use pulsevideo.MultiSocket.{
  Answer, accepted, would_block, reset, broken, Pick, ready, idle, flushed, out_of_range, pick_case,
  at_index, without_source, take_buffer, grab, pick_by, pick, Written, ended, to_send, after_write,
  before, write_loop,
}
use pulsevideo.MultiSocket.Stream.{
  from_queue, headers_due, owed, IsReader, pending_after, take_buffer-owed,
}

module _ (ops : CapsOps) (s : Sink) where
  -- A client that is owed what `c` is owed, and can be written to as `c` can.
  abbrev Same : Client → Client → Type 0
  Same c d = IsReader s d × (owed ops s d ≡ owed ops s c)

  Picked : Client → Pick → Type 0
  Picked c (ready d) = Same c d
  Picked c (idle d) = Same c d
  Picked c (flushed d) = Same c d
  Picked c out_of_range = zero ≡ 1

  -- The outcome of a call of handle_client_write on `c`.
  unfoldable pub IsConserved : Client → Option Written → Type 0
  IsConserved c o =
      (w : Written) × (o ≡ some w)
      × (w.sent ++ owed ops s w.client ≡ owed ops s c)
      × IsReader s w.client

  ended-IsConserved : (c d : Client) (b : Bool) → Same c d → IsConserved c (ended b d)
  unfolding IsConserved
  ended-IsConserved c d b h = (_, refl, h.1, h.0)

  pick_case-IsConserved :
      (c : Client) (p : Pick) (f g h : Client → Option Written)
      → Picked c p
      → ((d : Client) → Same c d → IsConserved c (f d))
      → ((d : Client) → Same c d → IsConserved c (g d))
      → ((d : Client) → Same c d → IsConserved c (h d))
      → IsConserved c (pick_case p f g h none)
  unfolding Picked
  pick_case-IsConserved c (ready d) f g h a k l m = k d a
  pick_case-IsConserved c (idle d) f g h a k l m = l d a
  pick_case-IsConserved c (flushed d) f g h a k l m = m d a
  pick_case-IsConserved c out_of_range f g h a k l m = absurd (omega arith)

  idle_Same : (c : Client) → IsReader s c → Same c (without_source c)
  unfolding owed from_queue headers_due send_streamheader
  idle_Same c r = (record { placed = r.placed; low = r.low; high = r.high }, refl)

  not_new : (b x : Bool) → b ≡ false → (b && x) ≡ true → zero ≡ 1
  not_new true x e f = cc
  not_new false x e f = cc

  module _ (reflexive : (c : Caps) → ops.caps_is_equal c c ≡ true) where
    pub take_buffer-IsReader :
        (c : Client) (n : ℕ) (b : Buffer)
        → c.bufpos ≡ pos n
        → IsReader s c
        → IsReader s (take_buffer ops s c b)
    unfolding take_buffer client_queue_buffer
    take_buffer-IsReader c n b h r =
        let moved : (c.bufpos -ℤ pos 1) ≡ (pos n -ℤ pos 1) = ap (λ x. x -ℤ pos 1) h in
        let inside = subst (λ x. x <ℤ pos (length s.bufqueue)) h r.high in
        let parts = -ℤ_parts (pos n) (pos 1) in
        record {
          placed = r.placed;
          low = rw moved (omega (arith, parts));
          high = rw moved (omega (arith, parts, inside));
        }

    grab-Picked :
        (c : Client)
        → c.sending ≡ []
        → eqb_ℤ c.bufpos minus_one ≡ false
        → IsReader s c
        → Picked c (grab ops s c)
    unfolding grab Picked
    grab-Picked c e f r =
        if_cases (Picked c) (eqb_ℤ c.flushcount (pos 0)) (λ t. (r, refl))
          (λ g. at_position c.bufpos refl)
      where
        at_position :
            (p : ℤ)
            → c.bufpos ≡ p
            → Picked c (
                option_case
                  (at_index s.bufqueue c.bufpos)
                  out_of_range
                  (λ b. ready (take_buffer ops s c b)))
        at_position (negsuc n) h = absurd (ground (arith, h, f, r.low))
        at_position (pos n) h =
            let (b, found) = get_elem?-total s.bufqueue n (
              let inside : pos n <ℤ pos (length s.bufqueue) =
                subst (λ x. x <ℤ pos (length s.bufqueue)) h r.high in
              omega (arith, inside)) in
            subst (λ o. Picked c (option_case o out_of_range (λ x. ready (take_buffer ops s c x))))
              (sym (ap (at_index s.bufqueue) h ∙ found))
              (take_buffer-IsReader c n b h r, take_buffer-owed ops reflexive s c n b e h found)

    pick-Picked : (c : Client) → IsReader s c → Picked c (pick ops s c)
    unfolding pick pick_by Picked
    pick-Picked c r = by_sending c.sending refl
      where
        by_sending : (bs : List Buffer) → c.sending ≡ bs → Picked c (pick_by ops bs s c)
        by_sending (b ∷ bs) e = (r, refl)
        by_sending [] e =
            if_cases (Picked c) (eqb_ℤ c.bufpos minus_one)
              (λ t.
                if_cases (Picked c) (eqb_ℤ c.flushcount (pos 0)) (λ f. idle_Same c r)
                  (λ f. idle_Same c r))
              (λ f.
                if_cases (Picked c) (c.new_connection && not (is_flushing c.status))
                  (λ t. absurd (omega (arith, not_new c.new_connection _ r.placed t)))
                  (λ g. grab-Picked c e f r))

    pub after_write-Same :
        (now n : ℕ) (c d : Client)
        → Same c d
        → let wrote = min n (length (to_send d)) in
          IsReader s (after_write now wrote d)
          × (take wrote (to_send d) ++ owed ops s (after_write now wrote d) ≡ owed ops s c)
    unfolding after_write owed from_queue headers_due send_streamheader
    after_write-Same now n c d h = (
      record { placed = h.0.placed; low = h.0.low; high = h.0.high },
      pending_after (min n (length (to_send d))) d.bufoffset
            (from_queue ops s (headers_due ops s d) d.bufpos) d.sending (omega arith)
          ∙ h.1,
    )

    -- The bytes of a call come before those of the calls after it.
    before-IsConserved :
        (c d : Client) (bytes : List ℕ) (o : Option Written)
        → bytes ++ owed ops s d ≡ owed ops s c
        → IsConserved d o
        → IsConserved c (before bytes o)
    unfolding IsConserved before
    before-IsConserved c d bytes o h (w, e, f, r) = (
      record w { sent = bytes ++ w.sent },
      ap (before bytes) e,
      append_assoc bytes w.sent (owed ops s w.client) ∙ ap (λ x. bytes ++ x) f ∙ h,
      r,
    )

    status_Same : (c d : Client) (st : ClientStatus) → Same c d → Same c (record d { status = st })
    unfolding owed from_queue headers_due send_streamheader
    status_Same c d st h = (record { placed = h.0.placed; low = h.0.low; high = h.0.high }, h.1)

    -- For a client that has found its place in the queue, and whatever the socket answers,
    -- handle_client_write never reads outside the queue, the client keeps a place in it, and the bytes
    -- that the socket takes, followed by those that the client is owed afterwards, are those that it
    -- was owed, where caps are equal to themselves.
    pub write_loop-IsConserved :
        (now : ℕ) (answers : List Answer) (c : Client)
        → IsReader s c
        → IsConserved c (write_loop ops now s answers c)
    unfolding write_loop
    write_loop-IsConserved now [] c r =
        pick_case-IsConserved c (pick ops s c) _ _ _ (pick-Picked c r)
          (λ d h. ended-IsConserved c d true h) (λ d h. ended-IsConserved c d true h)
          (λ d h. ended-IsConserved c _ false (status_Same c d removed h))
    write_loop-IsConserved now (accepted n ∷ answers) c r =
        pick_case-IsConserved c (pick ops s c) _ _ _ (pick-Picked c r)
          (λ d h.
            let next = after_write-Same now n c d h in
            before-IsConserved c _ _ _ next.1 (write_loop-IsConserved now answers _ next.0))
          (λ d h. ended-IsConserved c d true h)
          (λ d h. ended-IsConserved c _ false (status_Same c d removed h))
    write_loop-IsConserved now (would_block ∷ answers) c r =
        pick_case-IsConserved c (pick ops s c) _ _ _ (pick-Picked c r)
          (λ d h. ended-IsConserved c d true h) (λ d h. ended-IsConserved c d true h)
          (λ d h. ended-IsConserved c _ false (status_Same c d removed h))
    write_loop-IsConserved now (reset ∷ answers) c r =
        pick_case-IsConserved c (pick ops s c) _ _ _ (pick-Picked c r)
          (λ d h. ended-IsConserved c _ false (status_Same c d closed h))
          (λ d h. ended-IsConserved c d true h)
          (λ d h. ended-IsConserved c _ false (status_Same c d removed h))
    write_loop-IsConserved now (broken ∷ answers) c r =
        pick_case-IsConserved c (pick ops s c) _ _ _ (pick-Picked c r)
          (λ d h. ended-IsConserved c _ false (status_Same c d error h))
          (λ d h. ended-IsConserved c d true h)
          (λ d h. ended-IsConserved c _ false (status_Same c d removed h))
