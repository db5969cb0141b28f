-- ===== src/MultiSocket/Vectors.antt =====
-- What a buffer offers to the socket: the vectors of map_n_memory_output_vector.
use pulsevideo.Base.{
  ℕ, zero, suc, ◌-◌, ◌<◌, ◌≤◌, ◌≡◌, refl, sym, ap, ◌∙◌, inl, inr, Bool-cases, ltb, ltb→lt, List, [],
  ◌∷◌, ◌++◌, append_assoc, length, drop, concat, length-append, length-drop, arith,
}
use pulsevideo.MultiSocket.{vectors, map_n_memory_output_vector}

drop-append_front :
    {A : Type 0} (n : ℕ) (xs ys : List A) → n ≤ length xs → drop n (xs ++ ys) ≡ drop n xs ++ ys
drop-append_front zero xs ys h = refl
drop-append_front (suc n) [] ys h = absurd (omega arith)
drop-append_front (suc n) (x ∷ xs) ys h = drop-append_front n xs ys (omega arith)

drop-append_back :
    {A : Type 0} (n : ℕ) (xs ys : List A)
    → length xs ≤ n
    → drop n (xs ++ ys) ≡ drop (n - length xs) ys
drop-append_back n [] ys h = ap (λ k. drop k ys) (omega arith)
drop-append_back zero (x ∷ xs) ys h = absurd (omega arith)
drop-append_back (suc n) (x ∷ xs) ys h =
    drop-append_back n xs ys (omega arith) ∙ ap (λ k. drop k ys) (omega arith)

-- The bytes that the first `n` memories leave.
left_by : ℕ → List (List ℕ) → List ℕ
left_by zero ms = concat ms
left_by (suc n) [] = []
left_by (suc n) (m ∷ ms) = left_by n ms

vectors-concat : (n : ℕ) (ms : List (List ℕ)) → concat (vectors n ms) ++ left_by n ms ≡ concat ms
unfolding vectors left_by
vectors-concat zero ms = refl
vectors-concat (suc n) [] = refl
vectors-concat (suc n) (m ∷ ms) =
    append_assoc m (concat (vectors n ms)) (left_by n ms) ∙ ap (λ x. m ++ x) (vectors-concat n ms)

-- With at least one vector, the vectors hold the bytes of a buffer from `offset` on, in order and
-- without a gap, up to some rest, and at least one byte, where the buffer has one from `offset` on.
pub map_n_memory_output_vector-drop :
    (n offset : ℕ) (ms : List (List ℕ))
    → 0 < n
    → offset < length (concat ms)
    → (left : List ℕ) × (concat (map_n_memory_output_vector n offset ms) ++ left
        ≡ drop offset (concat ms))
      × (0 < length (concat (map_n_memory_output_vector n offset ms)))
unfolding map_n_memory_output_vector vectors left_by
map_n_memory_output_vector-drop n offset [] p h = absurd (omega arith)
map_n_memory_output_vector-drop zero offset (m ∷ ms) p h = absurd (omega arith)
map_n_memory_output_vector-drop (suc n) offset (m ∷ ms) p h =
    elim (Bool-cases (ltb offset (length m))) [
      | inl t ↦
          let front = drop-append_front offset m (concat ms) (ground arith) in
          rw t (
            left_by n ms,
            append_assoc (drop offset m) (concat (vectors n ms)) (left_by n ms)
                ∙ ap (λ x. drop offset m ++ x) (vectors-concat n ms)
                ∙ sym front,
            (let a = length-append (drop offset m) (concat (vectors n ms)) in
                let b = length-drop offset m in
                let c = ltb→lt offset (length m) t in omega (arith, a, b, c)),
          )
      | inr f ↦
          let (left, e, some_byte) =
            map_n_memory_output_vector-drop (suc n) (offset - length m) ms p
              (let l = length-append m (concat ms) in ground (arith, l)) in
          rw f (left, e ∙ sym (drop-append_back offset m (concat ms) (ground arith)), some_byte)
    ]
