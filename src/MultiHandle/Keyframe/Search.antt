-- ===== src/MultiHandle/Keyframe/Search.antt =====
-- What the search for a key frame returns.
use pulsevideo.Base.{
  ℕ, zero, suc, ◌+◌, ◌≤◌, ◌<◌, ◌≡◌, refl, true, false, ◌⊎◌, inl, inr, List, length, ℤ, pos,
  minus_one, ◌+ℤ◌, Bool-cases, arith, ℕ_discrete, dec_lt, if◌then◌else◌,
}
use pulsevideo.MultiHandle.Types.{Buffer}
use pulsevideo.MultiHandle.Keyframe.{
  sync_at, scan, find_syncframe, find_next_syncframe, find_prev_syncframe,
}

-- The first key frame at or after `i`, or -1 if there is none.
abbrev pub FirstFrom : List Buffer → ℕ → ℤ → Type 0
FirstFrom q i r =
    ((r ≡ minus_one) × ((j : ℕ) → i ≤ j → j < length q → sync_at q j ≡ false))
    ⊎ ((k : ℕ) × (r ≡ pos k)
        × (i ≤ k)
        × (k < length q)
        × (sync_at q k ≡ true)
        × ((j : ℕ) → i ≤ j → j < k → sync_at q j ≡ false))

-- The last key frame at or before `i`, or -1 if there is none.
abbrev pub LastUpTo : List Buffer → ℕ → ℤ → Type 0
LastUpTo q i r =
    ((r ≡ minus_one) × ((j : ℕ) → j ≤ i → sync_at q j ≡ false))
    ⊎ ((k : ℕ) × (r ≡ pos k)
        × (k ≤ i)
        × (sync_at q k ≡ true)
        × ((j : ℕ) → k < j → j ≤ i → sync_at q j ≡ false))

succ_pos : (i : ℕ) → pos i +ℤ pos 1 ≡ pos (suc i)
unfolding ◌+ℤ◌
succ_pos i = ground arith

pred_pos : (i : ℕ) → pos (suc i) +ℤ minus_one ≡ pos i
unfolding ◌+ℤ◌
pred_pos i = ground arith

pred_zero : pos 0 +ℤ minus_one ≡ minus_one
unfolding ◌+ℤ◌
pred_zero = refl

scan_in :
    (f : ℕ) (q : List Buffer) (i : ℕ) (d : ℤ)
    → i < length q
    → scan (suc f) q (pos i) d ≡ (if sync_at q i then pos i else scan f q (pos i +ℤ d) d)
unfolding scan
scan_in f q i d h = ground arith

scan_out :
    (f : ℕ) (q : List Buffer) (i : ℕ) (d : ℤ) → length q ≤ i → scan (suc f) q (pos i) d ≡ minus_one
unfolding scan
scan_out f q i d h = ground arith

scan-minus_one : (f : ℕ) (q : List Buffer) (d : ℤ) → scan f q minus_one d ≡ minus_one
unfolding scan
scan-minus_one zero q d = refl
scan-minus_one (suc f) q d = refl

scan_zero : (q : List Buffer) (i d : ℤ) → scan 0 q i d ≡ minus_one
unfolding scan
scan_zero q i d = refl

-- The statement about the next index carries over to this one, where this is no key frame.
FirstFrom-step :
    (q : List Buffer) (i : ℕ) (r : ℤ)
    → sync_at q i ≡ false
    → FirstFrom q (suc i) r
    → FirstFrom q i r
FirstFrom-step q i r miss (inl (e, all)) =
    inl (
      e,
      λ j hj hl. elim (ℕ_discrete i j) [ yes p ↦ rw (← p) miss | no n ↦ all j (omega arith) hl ],
    )
FirstFrom-step q i r miss (inr (k, e, hk, hl, hit, before)) = inr (
  k,
  e,
  omega arith,
  hl,
  hit,
  λ j hj hjk. elim (ℕ_discrete i j) [ yes p ↦ rw (← p) miss | no n ↦ before j (omega arith) hjk ],
)

pub LastUpTo-step :
    (q : List Buffer) (i : ℕ) (r : ℤ)
    → sync_at q (suc i) ≡ false
    → LastUpTo q i r
    → LastUpTo q (suc i) r
LastUpTo-step q i r miss (inl (e, all)) =
    inl (
      e,
      λ j hj. elim (ℕ_discrete (suc i) j) [ yes p ↦ rw (← p) miss | no n ↦ all j (omega arith) ],
    )
LastUpTo-step q i r miss (inr (k, e, hk, hit, after)) = inr (
  k,
  e,
  omega arith,
  hit,
  λ j hj hji. elim (ℕ_discrete (suc i) j) [
    | yes p ↦ rw (← p) miss
    | no n ↦ after j hj (omega arith)
  ],
)

scan_next :
    (f : ℕ) (q : List Buffer) (i : ℕ) → length q < i + f → FirstFrom q i (scan f q (pos i) (pos 1))
scan_next zero q i h = inl (scan_zero q (pos i) (pos 1), λ j hj hl. absurd (omega arith))
scan_next (suc f) q i h = elim (dec_lt i (length q)) [
  | yes p ↦ elim (Bool-cases (sync_at q i)) [
    | inl hit ↦
        rw (scan_in f q i (pos 1) p, hit)
          (inr (i, refl, omega arith, p, hit, λ j a b. absurd (omega arith)))
    | inr miss ↦
        rw (scan_in f q i (pos 1) p, miss, succ_pos)
          (FirstFrom-step q i _ miss (scan_next f q (suc i) (omega arith)))
  ]
  | no n ↦ rw (scan_out f q i (pos 1) (omega arith)) (inl (refl, λ j a b. absurd (omega arith)))
]

scan_prev :
    (f : ℕ) (q : List Buffer) (i : ℕ)
    → i < length q
    → i < f
    → LastUpTo q i (scan f q (pos i) minus_one)
scan_prev zero q i h k = absurd (omega arith)
scan_prev (suc f) q zero h k = elim (Bool-cases (sync_at q 0)) [
  | inl hit ↦
      rw (scan_in f q 0 minus_one h, hit)
        (inr (0, refl, omega arith, hit, λ j a b. absurd (omega arith)))
  | inr miss ↦
      rw (scan_in f q 0 minus_one h, miss, pred_zero, scan-minus_one)
        (inl (refl, λ j a. let e : 0 ≡ j = omega arith in rw (← e) miss))
]
scan_prev (suc f) q (suc i) h k = elim (Bool-cases (sync_at q (suc i))) [
  | inl hit ↦
      rw (scan_in f q (suc i) minus_one h, hit)
        (inr (suc i, refl, omega arith, hit, λ j a b. absurd (omega arith)))
  | inr miss ↦
      rw (scan_in f q (suc i) minus_one h, miss, pred_pos)
        (LastUpTo-step q i _ miss (scan_prev f q i (omega arith) (omega arith)))
]

-- From any index of the queue or beyond it, `find_next_syncframe` returns the first key frame at
-- or after that index, and -1 exactly when there is none: the loop has always enough rounds.
pub find_next_syncframe-FirstFrom :
    (q : List Buffer) (i : ℕ) → FirstFrom q i (find_next_syncframe q (pos i))
unfolding find_next_syncframe find_syncframe
find_next_syncframe-FirstFrom q i = scan_next (length q + 1) q i (omega arith)

-- From an index of the queue, `find_prev_syncframe` returns the last key frame at or before that
-- index, and -1 exactly when there is none.
pub find_prev_syncframe-LastUpTo :
    (q : List Buffer) (i : ℕ) → i < length q → LastUpTo q i (find_prev_syncframe q (pos i))
unfolding find_prev_syncframe find_syncframe
find_prev_syncframe-LastUpTo q i h = scan_prev (length q + 1) q i h (omega arith)

-- A position that is -1, or the index of a key frame in the queue.
abbrev pub IsKeyframePosition : List Buffer → ℤ → Type 0
IsKeyframePosition q r =
    (r ≡ minus_one) ⊎ ((k : ℕ) × (r ≡ pos k) × (k < length q) × (sync_at q k ≡ true))

pub find_next_syncframe-IsKeyframePosition :
    (q : List Buffer) (i : ℕ) → IsKeyframePosition q (find_next_syncframe q (pos i))
find_next_syncframe-IsKeyframePosition q i = elim (find_next_syncframe-FirstFrom q i) [
  | inl (e, all) ↦ inl e
  | inr (k, e, hk, hl, hit, before) ↦ inr (k, e, hl, hit)
]

pub find_prev_syncframe-IsKeyframePosition :
    (q : List Buffer) (i : ℕ) → i < length q → IsKeyframePosition q (find_prev_syncframe q (pos i))
find_prev_syncframe-IsKeyframePosition q i h = elim (find_prev_syncframe-LastUpTo q i h) [
  | inl (e, all) ↦ inl e
  | inr (k, e, hk, hit, after) ↦ inr (k, e, omega arith, hit)
]
