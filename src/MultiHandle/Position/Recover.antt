-- ===== src/MultiHandle/Position/Recover.antt =====
-- Where recovery moves a lagging client.
use pulsevideo.Base.{
  ℕ, zero, suc, ◌-◌, ◌≤◌, ◌<◌, ◌≡◌, refl, inl, inr, List, length, min, ℤ, pos, minus_one, ◌-ℤ◌,
  ◌≤ℤ◌, to_u32, to_gint, two_31, Bool-cases, arith,
}
use pulsevideo.MultiHandle.Types.{
  Buffer, Client, RecoverPolicy, no_recovery, resync_latest, resync_soft_limit, resync_keyframe,
}
use pulsevideo.MultiHandle.Keyframe.{sync_at}
use pulsevideo.MultiHandle.Keyframe.Search.{LastUpTo, LastUpTo-step}
use pulsevideo.MultiHandle.Position.{down_to_sync, sync_below, last_to_keep, recover_by}

down_to_sync-LastUpTo : (q : List Buffer) (n : ℕ) → LastUpTo q n (down_to_sync q n)
unfolding down_to_sync
down_to_sync-LastUpTo q zero = elim (Bool-cases (sync_at q 0)) [
  | inl hit ↦ rw hit (inr (0, refl, omega arith, hit, λ j a b. absurd (omega arith)))
  | inr miss ↦ rw miss (inl (refl, λ j a. let e : 0 ≡ j = omega arith in rw (← e) miss))
]
down_to_sync-LastUpTo q (suc n) = elim (Bool-cases (sync_at q (suc n))) [
  | inl hit ↦ rw hit (inr (suc n, refl, omega arith, hit, λ j a b. absurd (omega arith)))
  | inr miss ↦ rw miss (LastUpTo-step q n _ miss (down_to_sync-LastUpTo q n))
]

-- In a queue of less than 2 ^ 31 buffers the unsigned comparison does what it means to.
last_to_keep_lem :
    (q : List Buffer) (soft : ℕ)
    → 0 < length q
    → length q < two_31
    → 0 < soft
    → soft < two_31
    → last_to_keep q (pos soft) ≡ pos (min (length q - 1) (soft - 1))
unfolding last_to_keep to_u32 to_gint ◌-ℤ◌
last_to_keep_lem q soft a b c d = ground arith

LastUpTo_bounds :
    (q : List Buffer) (m p : ℕ) (r : ℤ) → m ≤ p → LastUpTo q m r → (r ≤ℤ pos p) × (minus_one ≤ℤ r)
LastUpTo_bounds q m p r h (inl (e, all)) = rw e (omega arith, omega arith)
LastUpTo_bounds q m p r h (inr (k, e, hk, hit, after)) = rw e (omega arith, omega arith)

-- A lagging client, at or beyond the soft limit `soft` of the recovery, is moved to -1 or to a
-- position that is no further from the newest buffer, in a queue of less than 2 ^ 31 buffers.
pub recover_by_lem :
    (policy : RecoverPolicy) (q : List Buffer) (soft p : ℕ) (c : Client)
    → c.bufpos ≡ pos p
    → 0 < length q
    → length q < two_31
    → 0 < soft
    → soft ≤ p
    → p < two_31
    → (recover_by policy q (pos soft) c ≤ℤ c.bufpos)
      × (minus_one ≤ℤ recover_by policy q (pos soft) c)
unfolding recover_by sync_below
recover_by_lem no_recovery q soft p c e hq hl hs le hp = (rw e (omega arith), rw e (omega arith))
recover_by_lem resync_latest q soft p c e hq hl hs le hp = (rw e (omega arith), omega arith)
recover_by_lem resync_soft_limit q soft p c e hq hl hs le hp = (rw e (omega arith), omega arith)
recover_by_lem resync_keyframe q soft p c e hq hl hs le hp =
    rw (last_to_keep_lem q soft hq hl hs (omega arith), e)
      (LastUpTo_bounds q _ p _ (omega arith)
        (down_to_sync-LastUpTo q (min (length q - 1) (soft - 1))))

-- Under the policy that asks for a key frame, the position is that of the last key frame below the
-- soft limit and the end of the queue, or -1 if there is none.
pub recover_by-LastUpTo :
    (q : List Buffer) (soft : ℕ) (c : Client)
    → 0 < length q
    → length q < two_31
    → 0 < soft
    → soft < two_31
    → LastUpTo q (min (length q - 1) (soft - 1)) (recover_by resync_keyframe q (pos soft) c)
unfolding recover_by sync_below
recover_by-LastUpTo q soft c hq hl hs hp =
    rw (last_to_keep_lem q soft hq hl hs hp)
      (down_to_sync-LastUpTo q (min (length q - 1) (soft - 1)))
