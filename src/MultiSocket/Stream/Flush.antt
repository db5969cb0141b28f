-- ===== src/MultiSocket/Stream/Flush.antt =====
-- A client that is being flushed: handle_client_write sends what it is owed, and then ends at `flushed`.
pub mod Leave
use pulsevideo.Base.{
  ℕ, zero, suc, ◌+◌, ◌<◌, ◌≤◌, ◌≡◌, refl, sym, ap, ◌∙◌, subst, true, false, not, ◌&&◌, if_cases,
  option_case, if◌then◌else◌, Bool-cases, inl, inr, ltb, Option, none, some, List, [], ◌∷◌, ◌++◌,
  ◌⊎◌, All, length, length-append, length-take, take, get_elem?-total, drop, pos, negsuc, minus_one,
  ◌+ℤ◌, ◌-ℤ◌, ◌<ℤ◌, eqb_ℤ, -ℤ_parts, min, arith,
}
use pulsevideo.MultiHandle.Types.{Client, Sink, Buffer, Caps, CapsOps, removed, is_flushing}
use pulsevideo.MultiHandle.Queue.{client_queue_buffer, send_streamheader, streamheader_changed}
use pulsevideo.MultiSocket.{
  Answer, accepted, would_block, reset, broken, Pick, ready, idle, flushed, out_of_range, pick_case,
  at_index, without_source, take_buffer, grab, pick_by, pick, Written, ended, to_send, bytes_left,
  rest, after_write, before, write_loop,
}
use pulsevideo.MultiSocket.Stream.{
  owed, from_queue, pending, headers_due, headers_due-nil, IsReader, take_buffer-owed,
}
use pulsevideo.MultiSocket.Stream.Conserve.{take_buffer-IsReader, after_write-Same}

-- An answer that takes at least one byte.
abbrev pub IsWilling : Answer → Type 0
IsWilling (accepted n) = 0 < n
IsWilling would_block = zero ≡ 1
IsWilling reset = zero ≡ 1
IsWilling broken = zero ≡ 1

-- A client with `k` buffers of the queue to come, which is the number that is left to flush.
pub record IsFlushing (s : Sink) (k : ℕ) (c : Client) : Type 0 where
  pub reader : IsReader s c
  pub knows : c.caps ≡ some s.caps
  pub count : c.flushcount ≡ pos k
  pub place : c.bufpos ≡ pos k -ℤ pos 1

sub_one : (k : ℕ) → pos (suc k) -ℤ pos 1 ≡ pos k
unfolding ◌-ℤ◌
sub_one k = ground arith

-- A call takes a byte, or it is the last one for its buffer.
fewer :
    (j n m x y : ℕ) (bs : List Buffer)
    → 0 < n
    → 0 < length bs
    → min n m + x ≡ y
    → x + length (if ltb (min n m) m then bs else rest bs) + j < y + length bs + j
fewer j n m x y [] p h e = absurd (omega arith)
fewer j n m x y (b ∷ bs) p h e = elim (Bool-cases (ltb (min n m) m)) [
  | inl t ↦ rw t (ground arith)
  | inr f ↦ rw f (omega arith)
]

sub_zero : pos 0 -ℤ pos 1 ≡ minus_one
unfolding ◌-ℤ◌
sub_zero = refl

module _ (ops : CapsOps) (reflexive : (c : Caps) → ops.caps_is_equal c c ≡ true) (s : Sink) where
  -- The rounds that are still needed, at most.
  abbrev pub work : ℕ → Client → ℕ
  work k c = length (owed ops s c) + length c.sending + k

  Busy : Client → ℕ → Client → Type 0
  Busy c k d =
      (j : ℕ) × IsFlushing s j d
      × (0 < length d.sending)
      × (owed ops s d ≡ owed ops s c)
      × (length d.sending + j ≡ length c.sending + k)

  -- What pick finds.
  PickFlushed : Client → ℕ → Pick → Type 0
  PickFlushed c k (ready d) = Busy c k d
  PickFlushed c k (idle d) = zero ≡ 1
  PickFlushed c k (flushed d) = owed ops s c ≡ []
  PickFlushed c k out_of_range = zero ≡ 1

  take_buffer-Busy :
      (c : Client) (j : ℕ) (b : Buffer)
      → c.sending ≡ []
      → at_index s.bufqueue c.bufpos ≡ some b
      → IsFlushing s (suc j) c
      → Busy c (suc j) (take_buffer ops s c b)
  unfolding Busy take_buffer client_queue_buffer headers_due send_streamheader
  take_buffer-Busy c j b e f h =
      let place : c.bufpos ≡ pos j = h.place ∙ sub_one j in
      let kept = take_buffer-IsReader ops s reflexive c j b place h.reader in
      let sends : (take_buffer ops s c b).sending ≡ b ∷ [] =
        ap (λ x. x ++ headers_due ops s c ++ b ∷ []) e
        ∙ ap (λ x. x ++ b ∷ []) (headers_due-nil ops reflexive s c h.knows) in
      (
        j,
        record {
          reader = kept;
          knows = refl;
          count = rw (h.count) (sub_one j);
          place = ap (λ x. x -ℤ pos 1) place;
        },
        rw sends (omega arith),
        take_buffer-owed ops reflexive s c j b e place
            (subst (λ x. at_index s.bufqueue x ≡ some b) place f),
        rw (sends, e) (omega arith),
      )

  grab-PickFlushed :
      (c : Client) (j : ℕ)
      → c.sending ≡ []
      → IsFlushing s (suc j) c
      → PickFlushed c (suc j) (grab ops s c)
  unfolding grab PickFlushed
  grab-PickFlushed c j e h =
      let place : c.bufpos ≡ pos j = h.place ∙ sub_one j in
      let inside : pos j <ℤ pos (length s.bufqueue) =
        subst (λ x. x <ℤ pos (length s.bufqueue)) place h.reader.high in
      let (b, found) = get_elem?-total s.bufqueue j (omega (arith, inside)) in
      let at_place : at_index s.bufqueue c.bufpos ≡ some b =
        ap (at_index s.bufqueue) place ∙ found in
      let more : eqb_ℤ c.flushcount (pos 0) ≡ false = rw (h.count) (ground arith) in
      rw (more, at_place) (take_buffer-Busy c j b e at_place h)

  pick-PickFlushed : (c : Client) (k : ℕ) → IsFlushing s k c → PickFlushed c k (pick ops s c)
  unfolding pick pick_by PickFlushed Busy owed pending from_queue headers_due send_streamheader
  pick-PickFlushed c k h = by_sending c.sending k refl h
    where
      by_sending :
          (bs : List Buffer) (k : ℕ)
          → c.sending ≡ bs
          → IsFlushing s k c
          → PickFlushed c k (pick_by ops bs s c)
      by_sending (b ∷ bs) k e h = (k, h, rw e (omega arith), refl, refl)
      by_sending [] zero e h =
          let at_end : c.bufpos ≡ minus_one = h.place ∙ sub_zero in
          let nothing : owed ops s c ≡ [] = rw (at_end, e) refl in
          let t : eqb_ℤ c.bufpos minus_one ≡ true = rw at_end refl in
          let u : eqb_ℤ c.flushcount (pos 0) ≡ true = rw (h.count) refl in rw (t, u) nothing
      by_sending [] (suc j) e h =
          let place : c.bufpos ≡ pos j = h.place ∙ sub_one j in
          let t : eqb_ℤ c.bufpos minus_one ≡ false = rw place refl in
          let u : (c.new_connection && not (is_flushing c.status)) ≡ false =
            rw (h.reader.placed) refl in
          rw (t, u) (grab-PickFlushed c j e h)

  -- How a call ends that flushes everything.
  unfoldable pub IsFlushed : Client → Option Written → Type 0
  IsFlushed c o =
      (w : Written) × (o ≡ some w)
      × (w.result ≡ false)
      × (w.client.status ≡ removed)
      × (w.sent ≡ owed ops s c)

  -- One round of writing.
  written_once :
      (now n j : ℕ) (d : Client)
      → 0 < n
      → 0 < length d.sending
      → IsFlushing s j d
      → let next = after_write now (min n (length (to_send d))) d in
        IsFlushing s j next
        × (take (min n (length (to_send d))) (to_send d) ++ owed ops s next ≡ owed ops s d)
        × (work j next < work j d)
  unfolding after_write
  written_once now n j d p some_buffer h =
      let w = min n (length (to_send d)) in
      let (reader, same) = after_write-Same ops s reflexive now n d d (h.reader, refl) in
      let total = length-append (take w (to_send d)) (owed ops s (after_write now w d)) in
      let whole = ap (λ (x : List ℕ). length x) same in
      let part = length-take w (to_send d) in
      (
        record { reader = reader; knows = h.knows; count = h.count; place = h.place },
        same,
        fewer j n (length (to_send d)) (length (owed ops s (after_write now w d)))
            (length (owed ops s d)) d.sending p some_buffer (omega (arith, total, whole, part)),
      )

  before-IsFlushed :
      (c d : Client) (bytes : List ℕ) (o : Option Written)
      → bytes ++ owed ops s d ≡ owed ops s c
      → IsFlushed d o
      → IsFlushed c (before bytes o)
  unfolding IsFlushed before
  before-IsFlushed c d bytes o h (w, e, result, status, sent) = (
    record w { sent = bytes ++ w.sent },
    ap (before bytes) e,
    result,
    status,
    ap (λ x. bytes ++ x) sent ∙ h,
  )

  pick_case-IsFlushed :
      (c : Client) (k : ℕ) (p : Pick) (f : Client → Option Written)
      → PickFlushed c k p
      → ((d : Client) → Busy c k d → IsFlushed c (f d))
      → IsFlushed c
          (pick_case p f (ended true) (λ d. ended false (record d { status = removed })) none)
  unfolding PickFlushed IsFlushed
  pick_case-IsFlushed c k (ready d) f h go = go d h
  pick_case-IsFlushed c k (idle d) f h go = absurd (omega (arith, h))
  pick_case-IsFlushed c k (flushed d) f h go = (_, refl, refl, refl, sym h)
  pick_case-IsFlushed c k out_of_range f h go = absurd (omega (arith, h))

  -- A socket that takes at least one byte each time, for as many rounds as there is work.
  pub write_loop-IsFlushed :
      (now k : ℕ) (answers : List Answer) (c : Client)
      → All IsWilling answers
      → IsFlushing s k c
      → work k c ≤ length answers
      → IsFlushed c (write_loop ops now s answers c)
  unfolding write_loop Busy
  write_loop-IsFlushed now k [] c a h m =
      pick_case-IsFlushed c k (pick ops s c) (ended true) (pick-PickFlushed c k h)
        (λ d b. absurd (let e = b.2 in let f = b.4 in omega (arith, e, f, m)))
  write_loop-IsFlushed now k (accepted n ∷ answers) c a h m =
      pick_case-IsFlushed c k (pick ops s c) _ (pick-PickFlushed c k h) (λ d b.
        let (j, f, some_buffer, same, count) = b in
        let (next, bytes, less) = written_once now n j d a.0 some_buffer f in
        before-IsFlushed c _ _ _ (bytes ∙ same) (
          write_loop-IsFlushed now j answers _ a.1 next
            (omega (arith, less, m, count, ap (λ (x : List ℕ). length x) same))))
  write_loop-IsFlushed now k (would_block ∷ answers) c a h m =
      absurd (let no = a.0 in omega (arith, no))
  write_loop-IsFlushed now k (reset ∷ answers) c a h m = absurd (let no = a.0 in omega (arith, no))
  write_loop-IsFlushed now k (broken ∷ answers) c a h m = absurd (let no = a.0 in omega (arith, no))
