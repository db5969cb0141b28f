-- ===== src/MultiHandle/Store/Laws.antt =====
-- Laws of the list of clients, and of the hash table with it.
use pulsevideo.Base.{
  ap, ◌∙◌, ℕ, ◌≡◌, ◌≢◌, ◌<◌, refl, subst, sym, length, suc, inl, inr, Bool-cases, if_cases, ◌==◌,
  none, some, List, [], ◌∷◌, All, arith,
}
use pulsevideo.MultiHandle.Types.{Client}
use pulsevideo.MultiHandle.Store.{
  find_client, update_client, delete_client, hash_lookup, hash_remove, index,
}
use pulsevideo.MultiHandle.Store.Hash.{Distinct}

-- The client at a handle and an address.
abbrev pub At : ℕ → ℕ → Client → Type 0
At h p c = (c.handle ≡ h) × (c.ptr ≡ p)

-- A change that leaves the handle and the address of every client.
abbrev pub KeepsKey : (Client → Client) → Type 0
KeepsKey f = (c : Client) → ((f c).handle ≡ c.handle) × ((f c).ptr ≡ c.ptr)

pub find_client-ptr :
    (p : ℕ) (cs : List Client) (c : Client) → find_client p cs ≡ some c → c.ptr ≡ p
unfolding find_client
find_client-ptr p [] c e = cc
find_client-ptr p (d ∷ cs) c e = ground (arith, find_client-ptr p cs c)

pub find_client-index {κ} :
    (P : ℕ × ℕ → Type κ) (p : ℕ) (cs : List Client) (c : Client)
    → find_client p cs ≡ some c
    → All P (index cs)
    → P (c.handle, c.ptr)
unfolding find_client
find_client-index P p [] c e h = cc
find_client-index P p (d ∷ cs) c e h = elim (Bool-cases (d.ptr == p)) [
  | inl t ↦ let same : d ≡ c = ground arith in subst (λ x. P (x.handle, x.ptr)) same h.0
  | inr f ↦ find_client-index P p cs c (ground arith) h.1
]

pub index-update :
    (p : ℕ) (f : Client → Client) (cs : List Client)
    → KeepsKey f
    → index (update_client p f cs) ≡ index cs
unfolding update_client
index-update p f [] k = refl
index-update p f (c ∷ cs) k = ground (arith, k c, index-update p f cs k)

pub All-update {κ} :
    (P : Client → Type κ) (p : ℕ) (f : Client → Client) (cs : List Client)
    → ((c : Client) → c.ptr ≡ p → P c → P (f c))
    → All P cs
    → All P (update_client p f cs)
unfolding update_client
All-update P p f [] k h = tt
All-update P p f (c ∷ cs) k h =
    if_cases (All P) (c.ptr == p) (λ t. (k c (ground arith) h.0, h.1))
      (λ n. (h.0, All-update P p f cs k h.1))

pub All-delete {κ} :
    (P : Client → Type κ) (p : ℕ) (cs : List Client) → All P cs → All P (delete_client p cs)
unfolding delete_client
All-delete P p [] h = tt
All-delete P p (c ∷ cs) h =
    if_cases (All P) (c.ptr == p) (λ t. h.1) (λ n. (h.0, All-delete P p cs h.1))

-- Deleting a client and removing its handle go together.
pub index-delete :
    (p : ℕ) (cs : List Client) (c : Client)
    → find_client p cs ≡ some c
    → Distinct (index cs)
    → index (delete_client p cs) ≡ hash_remove c.handle (index cs)
unfolding find_client delete_client hash_remove
index-delete p [] c e d = cc
index-delete p (x ∷ cs) c e d = elim (Bool-cases (x.ptr == p)) [
  | inl t ↦ let same : x ≡ c = ground arith in ground arith
  | inr n ↦
      let other =
        find_client-index (λ e. (e.0 ≢ x.handle) × (e.1 < x.ptr)) p cs c (ground arith) d.0 in
      ground (arith, index-delete p cs c)
]

-- A handle of the table leads to the client that has it.
pub hash_lookup-find :
    (h p : ℕ) (cs : List Client)
    → Distinct (index cs)
    → hash_lookup h (index cs) ≡ some p
    → (c : Client) × (find_client p cs ≡ some c) × (c.handle ≡ h)
unfolding find_client hash_lookup
hash_lookup-find h p [] d e = cc
hash_lookup-find h p (x ∷ cs) d e = elim (Bool-cases (x.handle == h)) [
  | inl t ↦ (x, ground arith, ground arith)
  | inr n ↦
      let (c, f, g) = hash_lookup-find h p cs d.1 (ground arith) in
      let other = find_client-index (λ e. (e.0 ≢ x.handle) × (e.1 < x.ptr)) p cs c f d.0 in
      (c, ground (arith, find_client-ptr p cs c), g)
]

-- What holds of all clients holds of the one that is found.
pub find_client-All {κ} :
    (P : Client → Type κ) (p : ℕ) (cs : List Client) (c : Client)
    → All P cs
    → find_client p cs ≡ some c
    → P c
unfolding find_client
find_client-All P p [] c a e = cc
find_client-All P p (d ∷ cs) c a e = elim (Bool-cases (d.ptr == p)) [
  | inl t ↦ let same : d ≡ c = ground arith in subst P same a.0
  | inr f ↦ find_client-All P p cs c a.1 (rw f at e)
]

-- What is changed is deleted.
pub All-delete-update {κ} :
    (P : Client → Type κ) (p : ℕ) (f : Client → Client) (cs : List Client)
    → KeepsKey f
    → All P cs
    → All P (delete_client p (update_client p f cs))
unfolding delete_client update_client
All-delete-update P p f [] k a = tt
All-delete-update P p f (c ∷ cs) k a =
    if_cases (λ ds. All P (delete_client p ds)) (c.ptr == p)
      (λ t. if_cases (All P) ((f c).ptr == p) (λ u. a.1) (λ u. absurd (ground (arith, (k c).1))))
      (λ n.
        if_cases (All P) (c.ptr == p) (λ t. absurd (ground arith))
          (λ m. (a.0, All-delete-update P p f cs k a.1)))

-- Reading what was written, through the same pointer and through another.
pub find_client-update_self :
    (p : ℕ) (f : Client → Client) (cs : List Client) (c : Client)
    → KeepsKey f
    → find_client p cs ≡ some c
    → find_client p (update_client p f cs) ≡ some (f c)
unfolding find_client update_client
find_client-update_self p f [] c k e = cc
find_client-update_self p f (x ∷ cs) c k e = ground (arith, k x, find_client-update_self p f cs c k)

pub find_client-update_ne :
    (p q : ℕ) (f : Client → Client) (cs : List Client)
    → KeepsKey f
    → q ≢ p
    → find_client q (update_client p f cs) ≡ find_client q cs
unfolding find_client update_client
find_client-update_ne p q f [] k h = refl
find_client-update_ne p q f (x ∷ cs) k h = ground (arith, k x, find_client-update_ne p q f cs k h)

pub find_client-delete_ne :
    (p q : ℕ) (cs : List Client) → q ≢ p → find_client q (delete_client p cs) ≡ find_client q cs
unfolding find_client delete_client
find_client-delete_ne p q [] h = refl
find_client-delete_ne p q (x ∷ cs) h = ground (arith, find_client-delete_ne p q cs h)

-- The client in front.
pub find_client_head : (c : Client) (cs : List Client) → find_client c.ptr (c ∷ cs) ≡ some c
unfolding find_client
find_client_head c cs = ground arith

pub update_client_head :
    (f : Client → Client) (c : Client) (cs : List Client)
    → update_client c.ptr f (c ∷ cs) ≡ f c ∷ cs
unfolding update_client
update_client_head f c cs = ground arith

pub delete_client_head :
    (p : ℕ) (c : Client) (cs : List Client) → c.ptr ≡ p → delete_client p (c ∷ cs) ≡ cs
unfolding delete_client
delete_client_head p c cs e = ground arith

pub length-update :
    (p : ℕ) (f : Client → Client) (cs : List Client) → length (update_client p f cs) ≡ length cs
unfolding update_client
length-update p f [] = refl
length-update p f (c ∷ cs) = ground (arith, length-update p f cs)

pub length-delete :
    (p : ℕ) (cs : List Client) (c : Client)
    → find_client p cs ≡ some c
    → suc (length (delete_client p cs)) ≡ length cs
unfolding find_client delete_client
length-delete p [] c e = cc
length-delete p (d ∷ cs) c e = ground (arith, length-delete p cs c)

-- A change at one node: every other client is taken over by `f`.
pub All-update_at {κ μ} :
    {P : Client → Type κ} {Q : Client → Type μ} (f : Client → Client) (cs : List Client)
    (c : Client)
    → Distinct (index cs)
    → find_client c.ptr cs ≡ some c
    → All P cs
    → ((d : Client) → d.ptr ≢ c.ptr → P d → Q d)
    → (P c → Q (f c))
    → All Q (update_client c.ptr f cs)
unfolding find_client update_client
All-update_at f [] c d e a g h = cc
All-update_at {P = P} {Q = Q} f (x ∷ cs) c d e a g h = elim (Bool-cases (x.ptr == c.ptr)) [
  | inl t ↦
      let same : x ≡ c = ground arith in
      rw t (
        subst (λ y. Q (f y)) (sym same) (h (subst P same a.0)),
        All-others cs (lower cs x d (ground arith)) a.1,
      )
  | inr n ↦ rw n (g x (ground arith) a.0, All-update_at f cs c d.1 (rw n at e) a.1 g h)
]
  where
    lower :
        (ys : List Client) (y : Client)
        → Distinct (index (y ∷ ys))
        → y.ptr ≡ c.ptr
        → All (λ z. z.ptr ≢ c.ptr) ys
    lower [] y d s = tt
    lower (z ∷ ys) y d s = (λ same. omega (arith, d.0.0.1), lower ys y (d.0.1, d.1.1) s)

    All-others : (ys : List Client) → All (λ z. z.ptr ≢ c.ptr) ys → All P ys → All Q ys
    All-others [] n a = tt
    All-others (y ∷ ys) n a = (g y n.0 a.0, All-others ys n.1 a.1)

pub find_client-none :
    (p : ℕ) (cs : List Client) → find_client p cs ≡ none → All (λ (d : Client). d.ptr ≢ p) cs
unfolding find_client
find_client-none p [] e = tt
find_client-none p (c ∷ cs) e = (λ same. ground arith, find_client-none p cs (ground arith))

pub index-update_at :
    (f : Client → Client) (cs : List Client) (c : Client)
    → find_client c.ptr cs ≡ some c
    → ((f c).handle ≡ c.handle) × ((f c).ptr ≡ c.ptr)
    → index (update_client c.ptr f cs) ≡ index cs
unfolding find_client update_client
index-update_at f [] c e h = cc
index-update_at f (x ∷ cs) c e h = elim (Bool-cases (x.ptr == c.ptr)) [
  | inl t ↦
      let same : x ≡ c = ground arith in
      rw t (
        ap (λ y. y ∷ index cs)
          (subst (λ z. Path (ℕ × ℕ) ((f z).handle, (f z).ptr) (z.handle, z.ptr)) (sym same)
            (ap (λ a. (a, (f c).ptr)) h.0 ∙ ap (λ b. (c.handle, b)) h.1)))
  | inr n ↦ rw n (ap (λ y. (x.handle, x.ptr) ∷ y) (index-update_at f cs c (rw n at e) h))
]
