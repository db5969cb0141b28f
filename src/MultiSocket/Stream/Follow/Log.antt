-- ===== src/MultiSocket/Stream/Follow/Log.antt =====
-- A client gets the stream from its place on: each byte, once and in order.
use pulsevideo.Base.{
  ℕ, suc, ◌+◌, ◌<◌, ◌≡◌, refl, sym, ap, ◌∙◌, subst, true, option_case, Bool-cases, inl, inr, Option,
  none, some, List, [], ◌∷◌, ◌++◌, append-nil, append_assoc, All, length, two_31, arith,
}
use pulsevideo.MultiHandle.Types.{Client, Sink, Caps, CapsOps}
use pulsevideo.MultiSocket.Stream.{owed}
use pulsevideo.MultiSocket.Stream.Follow.{
  Event, rendered, writable, other_ready, after_bytes, sent_by, follow, IsFairEvent, stream,
}
use pulsevideo.MultiSocket.Stream.Follow.Served.{IsServed, Step, render-header, render-buffer}
use pulsevideo.MultiSocket.Stream.Follow.Ready.{written, elsewhere}

module _ (ops : CapsOps) (reflexive : (c : Caps) → ops.caps_is_equal c c ≡ true) where
  -- What `follow` makes of the events.
  pub IsFollowed : ℕ → List Event → Sink → Client → Type 0
  IsFollowed handle es s c =
      (r : List ℕ × Sink) × (follow ops handle es s ≡ some r)
      × ((d : Client) × IsServed r.1 d
          × (d.handle ≡ handle)
          × (r.0 ++ owed ops r.1 d ≡ owed ops s c ++ stream es))

  -- One event before the others.
  joined :
      (sent due : List ℕ) (e : Event) (es : List Event) (s t : Sink) (c : Client)
      (step : Step ops reflexive sent due s c t)
      → follow ops c.handle (e ∷ es) s ≡ after_bytes sent (follow ops c.handle es t)
      → stream (e ∷ es) ≡ due ++ stream es
      → IsFollowed step.client.handle es t step.client
      → IsFollowed c.handle (e ∷ es) s c
  unfolding IsFollowed after_bytes
  joined sent due e es s t c step f g rest =
      let (r, ran, end) = subst (λ x. IsFollowed x es t step.client) step.same_handle rest in
      (
        (sent ++ r.0, r.1),
        f ∙ ap (after_bytes sent) ran,
        (
          end.0,
          end.1,
          end.2,
          append_assoc sent r.0 (owed ops r.1 end.0)
              ∙ ap (λ x. sent ++ x) end.3
              ∙ sym (append_assoc sent (owed ops t step.client) (stream es))
              ∙ ap (λ x. x ++ stream es) step.owes
              ∙ append_assoc (owed ops s c) due (stream es)
              ∙ ap (λ x. owed ops s c ++ x) (sym g),
        ),
      )

  after_nothing : (o : Option (List ℕ × Sink)) → after_bytes [] o ≡ o
  unfolding after_bytes
  after_nothing none = refl
  after_nothing (some r) = refl

  -- What the events to come ask for still holds.
  onwards :
      (es : List Event) (s t : Sink) (c : Client) (sent due : List ℕ)
      (step : Step ops reflexive sent due s c t)
      → (IsServed t step.client
          → All (IsFairEvent step.client.handle) es
          → length t.bufqueue + length es < two_31
          → IsFollowed step.client.handle es t step.client)
      → All (IsFairEvent c.handle) es
      → length s.bufqueue + suc (length es) < two_31
      → IsFollowed step.client.handle es t step.client
  onwards es s t c sent due step go a m =
      let grows = step.grows in
      go step.served (subst (λ x. All (IsFairEvent x) es) (sym step.same_handle) a)
        (omega (arith, grows, m))

  -- In an open sink without limits and a timeout, whose hash table and list of clients agree, whose
  -- clients all stand at -1 or at an index of the queue, and of whose clients none is being
  -- removed: for a client of it that has found its place, whose caps are the current caps of the
  -- sink, whose status is OK and that is not being flushed, where caps are equal to themselves;
  -- through any buffers, any calls for its own socket that find it ready for writing and for
  -- nothing else and in which the socket gives no error, and any calls for other sockets, whatever
  -- these answer, where the buffers of the queue and these events are together fewer than 2 ^ 31:
  -- every call returns, all of this holds again of the sink and the client, and the bytes that the
  -- client gets, with those that it is owed at the end, are those that it was owed at first,
  -- followed by all the bytes of the buffers that came and are no stream headers, in order.
  pub follow-IsFollowed :
      (es : List Event) (s : Sink) (c : Client)
      → IsServed s c
      → All (IsFairEvent c.handle) es
      → length s.bufqueue + length es < two_31
      → IsFollowed c.handle es s c
  unfolding follow stream IsFollowed
  follow-IsFollowed [] s c h a m = (([], s), refl, (c, h, refl, sym (append-nil (owed ops s c))))
  follow-IsFollowed (rendered now b ∷ es) s c h a m = elim (Bool-cases b.header) [
    | inl e ↦
        let (t, called, step) = render-header ops reflexive now b s c h e in
        joined [] [] (rendered now b) es s t c step
          (ap (λ o. option_case o none (λ x. follow ops c.handle es x)) called
            ∙ sym (after_nothing (follow ops c.handle es t)))
          (rw e refl) (onwards es s t c [] [] step (follow-IsFollowed es t step.client) a.1 m)
    | inr e ↦
        let (t, called, step) = render-buffer ops reflexive now b s c h (omega (arith, m)) e in
        joined [] b.contents (rendered now b) es s t c step
          (ap (λ o. option_case o none (λ x. follow ops c.handle es x)) called
            ∙ sym (after_nothing (follow ops c.handle es t)))
          (rw e refl)
          (onwards es s t c [] b.contents step (follow-IsFollowed es t step.client) a.1 m)
  ]
  follow-IsFollowed (writable now answers ∷ es) s c h a m =
      let (r, called, step) = written ops reflexive now answers s c h a.0 in
      let sent = sent_by ops c.handle now answers s in
      joined sent [] (writable now answers) es s r.1 c step
        (ap (λ o. option_case o none (λ x. after_bytes sent (follow ops c.handle es x.1))) called)
        refl (onwards es s r.1 c sent [] step (follow-IsFollowed es r.1 step.client) a.1 m)
  follow-IsFollowed (other_ready now condition reads answers other ∷ es) s c h a m =
      let (r, called, step) = elsewhere ops reflexive now condition reads answers other s c h a.0 in
      joined [] [] (other_ready now condition reads answers other) es s r.1 c step
        (ap (λ o. option_case o none (λ x. follow ops c.handle es x.1)) called
          ∙ sym (after_nothing (follow ops c.handle es r.1)))
        refl (onwards es s r.1 c [] [] step (follow-IsFollowed es r.1 step.client) a.1 m)
