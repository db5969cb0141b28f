-- ===== src/MultiHandle/Queue/Advance.antt =====
-- The steps of a client through the queue stay in the queue.
use pulsevideo.Base.{
  ℕ, ◌<◌, ◌≡◌, refl, subst, Bool, true, false, if_cases, List, length, ℤ, pos, negsuc, minus_one,
  ◌||◌, ◌+ℤ◌, +ℤ_parts, ◌≤ℤ◌, ◌<ℤ◌, ltb_ℤ, two_31, if◌then◌else◌, arith,
}
use pulsevideo.MultiHandle.Types.{Client, Sink, Buffer, RecoverPolicy}
use pulsevideo.MultiHandle.Limits.{get_buffers_max}
use pulsevideo.MultiHandle.Position.{recover_by, recover_client}
use pulsevideo.MultiHandle.Position.Recover.{recover_by_lem}
use pulsevideo.MultiHandle.Queue.{buffers_max, recover, advance}

-- The settings that the loop reads, of the sink that the loop starts with.
pub record HasSettings (s t : Sink) : Type 0 where
  pub queue : t.bufqueue ≡ s.bufqueue
  pub format : t.unit_format ≡ s.unit_format
  pub soft : t.units_soft_max ≡ s.units_soft_max
  pub policy : t.recover_policy ≡ s.recover_policy
  pub limit : t.timeout ≡ s.timeout

pub or_false : (a b : Bool) → (a || b) ≡ false → a ≡ false
or_false true b e = e
or_false false b e = refl

-- A position of a queue of `len` buffers, or -1.
unfoldable pub Inside : ℕ → ℤ → Type 0
Inside len p = (minus_one ≤ℤ p) × (p <ℤ pos len)

-- The recovery never moves a position out of the queue.
recover_by-Inside :
    (policy : RecoverPolicy) (q : List Buffer) (soft : ℤ) (c : Client) (x : ℤ)
    → c.bufpos ≡ x
    → length q < two_31
    → Inside (length q) x
    → pos 0 <ℤ soft
    → soft ≤ℤ x
    → Inside (length q) (recover_by policy q soft c)
unfolding Inside
recover_by-Inside policy q (negsuc n) c x e h i a b = absurd (omega (arith, a))
recover_by-Inside policy q (pos n) c (negsuc m) e h i a b = absurd (omega (arith, a, b))
recover_by-Inside policy q (pos n) c (pos m) e h i a b =
    let inside = i.1 in
    let bound =
      recover_by_lem policy q n m c e (omega (arith, inside)) h (omega (arith, a))
        (omega (arith, b)) (omega (arith, inside, h)) in
    let le : recover_by policy q (pos n) c ≤ℤ pos m =
      subst (λ y. recover_by policy q (pos n) c ≤ℤ y) e bound.0 in
    (bound.1, omega (arith, le, inside))

-- Whatever the soft max is, it is the one that the recovery counts with, if it counts.
max_agrees :
    (s : Sink)
    → pos 0 <ℤ buffers_max s s.units_soft_max
    → buffers_max s s.units_soft_max ≡ get_buffers_max s.unit_format s.bufqueue s.units_soft_max
unfolding buffers_max
max_agrees s h = by_test (ltb_ℤ (pos 0) s.units_soft_max) refl
  where
    by_test :
        (b : Bool)
        → ltb_ℤ (pos 0) s.units_soft_max ≡ b
        → (if ltb_ℤ (pos 0) s.units_soft_max
            then get_buffers_max s.unit_format s.bufqueue s.units_soft_max
            else minus_one)
          ≡ get_buffers_max s.unit_format s.bufqueue s.units_soft_max
    by_test true e = rw e refl
    by_test false e = absurd (ground (arith, h, e))

module _ (s : Sink) (short : length s.bufqueue < two_31) where
  abbrev pub soft : ℤ
  soft = buffers_max s s.units_soft_max

  recover_client-Inside :
      (t : Sink) (c : Client)
      → HasSettings s t
      → Inside (length s.bufqueue) c.bufpos
      → pos 0 <ℤ soft
      → soft ≤ℤ c.bufpos
      → Inside (length s.bufqueue) (recover_client t c)
  unfolding recover_client
  recover_client-Inside t c g i a b =
      rw (g.policy, g.queue, g.format, g.soft)
        (subst (λ x. Inside (length s.bufqueue) (recover_by s.recover_policy s.bufqueue x c))
          (max_agrees s a)
          (recover_by-Inside s.recover_policy s.bufqueue soft c c.bufpos refl short i a b))

  -- A client one position further, as far as the recovery lets it.
  pub advance-Inside :
      (t : Sink) (c : Client)
      → HasSettings s t
      → minus_one ≤ℤ c.bufpos
      → c.bufpos +ℤ pos 1 <ℤ pos (length s.bufqueue)
      → Inside (length s.bufqueue) (advance t soft c).bufpos
  unfolding advance recover Inside
  advance-Inside t c g low high =
      if_cases (λ (d : Client). Inside (length s.bufqueue) d.bufpos) _
        (λ e.
          recover_client-Inside t (record c { bufpos = c.bufpos +ℤ pos 1 }) g moved
            (ground (arith, e)) (ground (arith, e)))
        (λ f. moved)
    where
      moved : Inside (length s.bufqueue) (c.bufpos +ℤ pos 1)
      moved = (let parts = +ℤ_parts c.bufpos (pos 1) in omega (arith, parts, low), high)
