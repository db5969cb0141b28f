-- ===== src/MultiHandle/Store/Hash.antt =====
-- Laws of the hash table from handles to list nodes.
use pulsevideo.Base.{
  ℕ, ◌≡◌, ◌≢◌, ◌<◌, refl, subst, inl, inr, Bool-cases, if_cases, ◌==◌, none, some, List, [], ◌∷◌,
  All, arith,
}
use pulsevideo.MultiHandle.Store.{hash_lookup, hash_remove}

-- No two entries have a handle or an address in common; the addresses fall along the list.
abbrev pub Distinct : List (ℕ × ℕ) → Type 0
Distinct [] = Unit {0}
Distinct ((h, p) ∷ m) = All (λ e. (e.0 ≢ h) × (e.1 < p)) m × Distinct m

pub All-hash_remove {κ} :
    (P : ℕ × ℕ → Type κ) (h : ℕ) (m : List (ℕ × ℕ)) → All P m → All P (hash_remove h m)
unfolding hash_remove
All-hash_remove P h [] a = tt
All-hash_remove P h ((k, p) ∷ m) a =
    if_cases (All P) (k == h) (λ t. a.1) (λ n. (a.0, All-hash_remove P h m a.1))

pub hash_remove-Distinct : (h : ℕ) (m : List (ℕ × ℕ)) → Distinct m → Distinct (hash_remove h m)
unfolding hash_remove
hash_remove-Distinct h [] d = tt
hash_remove-Distinct h ((k, p) ∷ m) d =
    if_cases Distinct (k == h) (λ t. d.1)
      (λ n. (All-hash_remove _ h m d.0, hash_remove-Distinct h m d.1))

pub hash_remove_absent : (h : ℕ) (m : List (ℕ × ℕ)) → hash_lookup h m ≡ none → hash_remove h m ≡ m
unfolding hash_lookup hash_remove
hash_remove_absent h [] e = refl
hash_remove_absent h ((k, p) ∷ m) e = ground (arith, hash_remove_absent h m)

-- Handles that the table does not hold.
pub hash_lookup-none : (h : ℕ) (m : List (ℕ × ℕ)) → hash_lookup h m ≡ none → All (λ e. e.0 ≢ h) m
unfolding hash_lookup
hash_lookup-none h [] e = tt
hash_lookup-none h ((k, p) ∷ m) e = (λ h. ground arith, hash_lookup-none h m (ground arith))

hash_lookup_absent :
    (h p : ℕ) (m : List (ℕ × ℕ)) → All (λ e. (e.0 ≢ h) × (e.1 < p)) m → hash_lookup h m ≡ none
unfolding hash_lookup
hash_lookup_absent h p [] a = refl
hash_lookup_absent h p ((k, q) ∷ m) a = ground (arith, hash_lookup_absent h p m a.1)

-- After the handle of an entry is removed the table has no entry for it.
pub hash_lookup-remove_self :
    (h : ℕ) (m : List (ℕ × ℕ)) → Distinct m → hash_lookup h (hash_remove h m) ≡ none
unfolding hash_lookup hash_remove
hash_lookup-remove_self h [] d = refl
hash_lookup-remove_self h ((k, p) ∷ m) d = elim (Bool-cases (k == h)) [
  | inl t ↦ rw t (hash_lookup_absent h p m (let same : k ≡ h = ground arith in rw same at d.0))
  | inr n ↦ rw (n, n) (hash_lookup-remove_self h m d.1)
]

pub hash_lookup-remove_ne :
    (h j : ℕ) (m : List (ℕ × ℕ)) → j ≢ h → hash_lookup j (hash_remove h m) ≡ hash_lookup j m
unfolding hash_lookup hash_remove
hash_lookup-remove_ne h j [] n = refl
hash_lookup-remove_ne h j ((k, p) ∷ m) n = ground (arith, hash_lookup-remove_ne h j m n)

-- Two handles lead to two nodes.
pub hash_lookup_value {κ} :
    (P : ℕ × ℕ → Type κ) (h p : ℕ) (m : List (ℕ × ℕ))
    → hash_lookup h m ≡ some p
    → All P m
    → P (h, p)
unfolding hash_lookup
hash_lookup_value P h p [] e a = cc
hash_lookup_value P h p ((k, q) ∷ m) e a = elim (Bool-cases (k == h)) [
  | inl t ↦
      let same : k ≡ h = ground arith in
      let also : q ≡ p = ground arith in subst (λ x. P (x, p)) same (subst (λ x. P (k, x)) also a.0)
  | inr n ↦ hash_lookup_value P h p m (ground arith) a.1
]

pub hash_lookup_injective :
    (h j p q : ℕ) (m : List (ℕ × ℕ))
    → Distinct m
    → hash_lookup h m ≡ some p
    → hash_lookup j m ≡ some q
    → h ≢ j
    → p ≢ q
unfolding hash_lookup
hash_lookup_injective h j p q [] d e f n same = cc
hash_lookup_injective h j p q ((k, r) ∷ m) d e f n same = elim (Bool-cases (k == h)) [
  | inl t ↦
      let out : hash_lookup j m ≡ some q = ground arith in
      let rp : r ≡ p = ground arith in
      let other = hash_lookup_value (λ e. (e.0 ≢ k) × (e.1 < r)) j q m out d.0 in
      absurd (omega (arith, other.1))
  | inr a ↦ elim (Bool-cases (k == j)) [
    | inl t ↦
        let out : hash_lookup h m ≡ some p = ground arith in
        let rq : r ≡ q = ground arith in
        let other = hash_lookup_value (λ e. (e.0 ≢ k) × (e.1 < r)) h p m out d.0 in
        absurd (omega (arith, other.1))
    | inr b ↦ hash_lookup_injective h j p q m d.1 (ground arith) (ground arith) n same
  ]
]
