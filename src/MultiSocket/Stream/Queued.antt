-- ===== src/MultiSocket/Stream/Queued.antt =====
-- What a client is owed after a buffer was queued.
use pulsevideo.Base.{
  ℕ, zero, suc, ◌<◌, ◌≡◌, refl, sym, ap, ◌∙◌, subst, Bool, true, option_case, some, List, [], ◌∷◌,
  ◌++◌, append_assoc, length, take, get_elem?, ℤ, pos, negsuc, pos_part, minus_one, ◌+ℤ◌, +ℤ_parts,
  ◌≤ℤ◌, arith,
}
use pulsevideo.MultiHandle.Types.{Client, Sink, Buffer, Caps, CapsOps, ok}
use pulsevideo.MultiHandle.Class.{SinkClass}
use pulsevideo.MultiHandle.Store.{find_client}
use pulsevideo.MultiHandle.Store.Laws.{find_client-All}
use pulsevideo.MultiHandle.Clients.Linked.{IsLinked}
use pulsevideo.MultiHandle.Queue.{queue_buffer}
use pulsevideo.MultiHandle.Queue.Within.{IsSettled, queue_buffer-IsSettled}
use pulsevideo.MultiHandle.Queue.Advance.{Inside}
use pulsevideo.MultiHandle.Queue.Inside.{below_part, stays_in_queue, enters}
use pulsevideo.MultiHandle.Queue.Tracked.{IsUnlimited}
use pulsevideo.MultiHandle.Queue.Tracked.Whole.{queue_buffer-Stepped}
use pulsevideo.MultiSocket.Stream.{
  contents_at, down_from, bytes_of, headers_due-nil, from_queue, owed, pending, IsReader,
}

-- A client that has found its place, has got the stream headers of the caps, and is not flushed.
pub record IsFed (s : Sink) (c : Client) : Type 0 where
  pub reader : IsReader s c
  pub knows : c.caps ≡ some s.caps
  pub healthy : c.status ≡ ok
  pub unflushed : c.flushcount ≡ minus_one

-- A queue with one more buffer.
down_from-cons :
    (b : Buffer) (q : List Buffer) (n : ℕ) → down_from (b ∷ q) (suc n) ≡ down_from q n ++ b.contents
unfolding down_from contents_at
down_from-cons b q zero = refl
down_from-cons b q (suc n) =
    ap (λ x. contents_at q (suc n) ++ x) (down_from-cons b q n)
    ∙ sym (append_assoc (contents_at q (suc n)) (down_from q n) b.contents)

get_elem?-take : (m i : ℕ) (q : List Buffer) → i < m → get_elem? (take m q) i ≡ get_elem? q i
get_elem?-take zero i q h = absurd (omega arith)
get_elem?-take (suc m) i [] h = refl
get_elem?-take (suc m) zero (x ∷ q) h = refl
get_elem?-take (suc m) (suc i) (x ∷ q) h = get_elem?-take m i q (omega arith)

-- A queue that is cut further back.
down_from-take : (m n : ℕ) (q : List Buffer) → n < m → down_from (take m q) n ≡ down_from q n
unfolding down_from contents_at
down_from-take m zero q h = ap (λ o. option_case o [] (λ b. b.contents)) (get_elem?-take m 0 q h)
down_from-take m (suc n) q h =
    ap (λ o. option_case o [] (λ b. b.contents) ++ down_from (take m q) n)
      (get_elem?-take m (suc n) q h)
    ∙ ap (λ x. contents_at q (suc n) ++ x) (down_from-take m n q (omega arith))

-- What comes from the queue, no stream headers being due.
waiting : List Buffer → ℤ → List ℕ
waiting q (pos n) = down_from q n
waiting q (negsuc n) = []

add_one : (n : ℕ) → pos n +ℤ pos 1 ≡ pos (suc n)
unfolding ◌+ℤ◌
add_one n = ground arith

waiting-cons :
    (b : Buffer) (q : List Buffer) (m : ℕ) (p : ℤ)
    → minus_one ≤ℤ p
    → p +ℤ pos 1 ≤ℤ pos m
    → waiting (take (suc m) (b ∷ q)) (p +ℤ pos 1) ≡ waiting q p ++ b.contents
unfolding waiting ◌+ℤ◌ down_from contents_at
waiting-cons b q m (pos n) l h =
    let next = add_one n in
    let bound : pos (suc n) ≤ℤ pos m = subst (λ x. x ≤ℤ pos m) next h in
    ap (waiting (take (suc m) (b ∷ q))) next
    ∙ down_from-take (suc m) (suc n) (b ∷ q) (omega (arith, bound))
    ∙ down_from-cons b q n
waiting-cons b q m (negsuc zero) l h = refl
waiting-cons b q m (negsuc (suc n)) l h = absurd (omega (arith, l))

module _ (ops : CapsOps) (reflexive : (c : Caps) → ops.caps_is_equal c c ≡ true) where
  -- What a client that knows the caps is owed.
  owed-fed :
      (s : Sink) (c : Client)
      → c.caps ≡ some s.caps
      → owed ops s c ≡ pending c.bufoffset c.sending ++ waiting s.bufqueue c.bufpos
  unfolding owed from_queue waiting bytes_of
  owed-fed s c e =
      ap (λ h. pending c.bufoffset c.sending ++ from_queue ops s h c.bufpos)
        (headers_due-nil ops reflexive s c e)
      ∙ ap (λ x. pending c.bufoffset c.sending ++ x) (by_place c.bufpos)
    where
      by_place : (p : ℤ) → from_queue ops s [] p ≡ waiting s.bufqueue p
      by_place (pos n) = refl
      by_place (negsuc n) = refl

  -- A client one position further, in a queue with one more buffer.
  moved : Client → Bool → Client
  moved c source = record c { bufpos = c.bufpos +ℤ pos 1; source = source }

  moved-IsFed :
      (b : Buffer) (s r : Sink) (c : Client) (source : Bool)
      → IsSettled (b ∷ s.bufqueue) r
      → r.caps ≡ s.caps
      → c.bufpos +ℤ pos 1 ≤ℤ r.buffers_queued
      → IsFed s c
      → IsFed r (moved c source) × (owed ops r (moved c source) ≡ owed ops s c ++ b.contents)
  unfolding Inside moved
  moved-IsFed b s r c source settled caps high f =
      let m = pos_part r.buffers_queued in
      let below = below_part (c.bufpos +ℤ pos 1) r.buffers_queued settled.non_negative high in
      let entered = enters (length s.bufqueue) c (f.reader.low, f.reader.high) in
      let parts = +ℤ_parts c.bufpos (pos 1) in
      let low = f.reader.low in
      let place =
        stays_in_queue (b ∷ s.bufqueue) r.bufqueue m (c.bufpos +ℤ pos 1) settled.queue
          (omega (arith, parts, low), entered.1) below in
      let knows : c.caps ≡ some r.caps = f.knows ∙ ap some (sym caps) in
      (
        record {
          reader = record { placed = f.reader.placed; low = place.0; high = place.1 };
          knows = knows;
          healthy = f.healthy;
          unflushed = f.unflushed;
        },
        owed-fed r (moved c source) knows
            ∙ ap (λ x. pending c.bufoffset c.sending ++ x)
                (ap (λ q. waiting q (c.bufpos +ℤ pos 1)) settled.queue
                  ∙ waiting-cons b s.bufqueue m c.bufpos low below)
            ∙ sym (
                append_assoc (pending c.bufoffset c.sending) (waiting s.bufqueue c.bufpos)
                  b.contents)
            ∙ ap (λ x. x ++ b.contents) (sym (owed-fed s c f.knows)),
      )

  -- Without limits and a timeout, queue_buffer adds the bytes of the buffer to what a client is owed
  -- that has found its place, and it leaves the client in its place.
  pub queue_buffer-owed :
      (k : SinkClass) (now : ℕ) (b : Buffer) (s : Sink) (p : ℕ) (c : Client)
      → IsLinked s
      → IsUnlimited s
      → find_client p s.clients ≡ some c
      → IsFed s c
      → let r = queue_buffer k now b s in
        (d : Client) × (find_client p r.clients ≡ some d)
        × (d.handle ≡ c.handle)
        × IsFed r d
        × (owed ops r d ≡ owed ops s c ++ b.contents)
  unfolding moved
  queue_buffer-owed k now b s p c v u e f =
      let r = queue_buffer k now b s in
      let step = queue_buffer-Stepped k now b s p c v u e in
      let settled = queue_buffer-IsSettled k now b s v in
      let d = step.0.0 in
      let within = find_client-All _ p r.clients d settled.within step.0.1 in
      let end =
        moved-IsFed b s r c d.source settled (ap (λ (t : Sink). t.caps) step.1)
          (subst (λ x. x ≤ℤ r.buffers_queued) (ap (λ (x : Client). x.bufpos) step.0.2) within) f in
      (moved c d.source, step.0.1 ∙ ap some step.0.2, refl, end.0, end.1)
