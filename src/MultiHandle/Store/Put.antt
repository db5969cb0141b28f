-- ===== src/MultiHandle/Store/Put.antt =====
-- Putting one client back, taking one away, and finding clients by handle.
use pulsevideo.Base.{
  ℕ, ◌≡◌, ◌≢◌, ◌<◌, All, subst, refl, inl, inr, Bool-cases, ◌==◌, none, some, List, [], ◌∷◌, arith,
}
use pulsevideo.MultiHandle.Types.{Client}
use pulsevideo.MultiHandle.Store.{find_client, update_client, delete_client, hash_lookup, index}
use pulsevideo.MultiHandle.Store.Laws.{find_client-index}
use pulsevideo.MultiHandle.Store.Hash.{Distinct}

-- Another client is not touched,
pub find_client-put_ne :
    (p q : ℕ) (d : Client) (cs : List Client)
    → d.ptr ≡ p
    → q ≢ p
    → find_client q (update_client p (λ x. d) cs) ≡ find_client q cs
unfolding find_client update_client
find_client-put_ne p q d [] e n = refl
find_client-put_ne p q d (x ∷ cs) e n = ground (arith, e, find_client-put_ne p q d cs e n)

-- and the one that was put back is found.
pub find_client-put_self :
    (p : ℕ) (c d : Client) (cs : List Client)
    → d.ptr ≡ p
    → find_client p cs ≡ some c
    → find_client p (update_client p (λ x. d) cs) ≡ some d
unfolding find_client update_client
find_client-put_self p c d [] e f = cc
find_client-put_self p c d (x ∷ cs) e f = ground (arith, e, find_client-put_self p c d cs e)

-- A listed client is in the table.
pub hash_lookup-listed :
    (p : ℕ) (cs : List Client) (c : Client)
    → Distinct (index cs)
    → find_client p cs ≡ some c
    → hash_lookup c.handle (index cs) ≡ some p
unfolding find_client hash_lookup
hash_lookup-listed p [] c d e = cc
hash_lookup-listed p (x ∷ cs) c d e = elim (Bool-cases (x.ptr == p)) [
  | inl t ↦ let same : x ≡ c = ground arith in ground arith
  | inr n ↦
      let found : find_client p cs ≡ some c = rw n at e in
      let other = find_client-index (λ e. (e.0 ≢ x.handle) × (e.1 < x.ptr)) p cs c found d.0 in
      ground (arith, hash_lookup-listed p cs c d.1 found)
]

-- Deleting a client leaves the others.
pub All-delete_at {κ} :
    (P : Client → Type κ) (p : ℕ) (cs : List Client)
    → Distinct (index cs)
    → All (λ x. x.ptr ≢ p → P x) cs
    → All P (delete_client p cs)
unfolding delete_client
All-delete_at P p [] d a = tt
All-delete_at P p (c ∷ cs) d a = elim (Bool-cases (c.ptr == p)) [
  | inl t ↦
      let same : c.ptr ≡ p = ground arith in
      rw t (rest cs (subst (λ y. All (λ e. (e.0 ≢ c.handle) × (e.1 < y)) (index cs)) same d.0) a.1)
  | inr n ↦ rw n (a.0 (ground arith), All-delete_at P p cs d.1 a.1)
]
  where
    rest :
        (cs : List Client)
        → All (λ e. (e.0 ≢ c.handle) × (e.1 < p)) (index cs)
        → All (λ x. x.ptr ≢ p → P x) cs
        → All P cs
    rest [] l h = tt
    rest (x ∷ cs) l h = (h.0 (λ same. omega (arith, same, l.0.1)), rest cs l.1 h.1)

-- A client that was deleted is not found any more.
pub find_client-delete_self :
    (p : ℕ) (cs : List Client) → Distinct (index cs) → find_client p (delete_client p cs) ≡ none
unfolding find_client
find_client-delete_self p cs d =
    absent (delete_client p cs) (All-delete_at (λ x. x.ptr ≢ p) p cs d (themselves cs))
  where
    absent : (cs : List Client) → All (λ x. x.ptr ≢ p) cs → find_client p cs ≡ none
    absent [] n = refl
    absent (x ∷ cs) n = ground (arith, n.0, absent cs n.1)

    themselves : (cs : List Client) → All (λ x. x.ptr ≢ p → x.ptr ≢ p) cs
    themselves [] = tt
    themselves (x ∷ cs) = (λ n. n, themselves cs)

-- Every client of a list without doubles is the one that its address leads to.
pub find_client-listed :
    (cs : List Client) → Distinct (index cs) → All (λ c. find_client c.ptr cs ≡ some c) cs
unfolding find_client
find_client-listed [] d = tt
find_client-listed (c ∷ cs) d = (ground arith, behind cs d.0 (find_client-listed cs d.1))
  where
    behind :
        (xs : List Client)
        → All (λ e. (e.0 ≢ c.handle) × (e.1 < c.ptr)) (index xs)
        → All (λ x. find_client x.ptr cs ≡ some x) xs
        → All (λ x. find_client x.ptr (c ∷ cs) ≡ some x) xs
    behind [] l h = tt
    behind (x ∷ xs) l h =
        (let lower = l.0.1 in let e = h.0 in ground (arith, lower, e), behind xs l.1 h.1)
