-- ===== src/MultiHandle/Limits/Bytes.antt =====
-- find_limits without a maximum, as queue_buffer calls it: what it returns, and how many buffers
-- it finds for a minimum in bytes.
use pulsevideo.Base.{
  ℕ, ◌+◌, ◌-◌, ◌<◌, ◌≡◌, refl, ◌∙◌, true, false, if◌then◌else◌, leb, List, [], ◌∷◌, length, pos,
  minus_one, two_31, add_size_gint_small, if_cases, Bool-cases, arith, ◌⊎◌, inl, inr,
}
use pulsevideo.MultiHandle.Types.{Buffer, size}
use pulsevideo.MultiHandle.Limits.{
  Search, Bounds, check_min, count_time, count_bytes, limits_loop, finish, find_limits, start,
}

abbrev step : ℕ → Buffer → Search → Search
step i b s = count_bytes minus_one b (count_time minus_one b (check_min i s))

abbrev loop : ℕ → Search → List Buffer → Search
loop = limits_loop minus_one minus_one

check_min_hit : (i : ℕ) (s : Search) → (check_min i s).max_hit ≡ s.max_hit
unfolding check_min
check_min_hit i s = ground arith

-- Without a maximum the loop takes every buffer.
loop-cons :
    (i : ℕ) (s : Search) (b : Buffer) (q : List Buffer)
    → s.max_hit ≡ false
    → loop i s (b ∷ q) ≡ loop (i + 1) (step i b s) q
unfolding limits_loop
loop-cons i s b q h =
    if_cases (λ r. r ≡ loop (i + 1) (step i b s) q) (check_min i s).max_hit
      (λ t. cc (check_min_hit i s)) (λ f. refl)

step_keeps :
    (i : ℕ) (b : Buffer) (s : Search)
    → s.max_hit ≡ false
    → ((step i b s).max_hit ≡ false)
      × ((step i b s).max_idx ≡ s.max_idx)
      × ((step i b s).result ≡ s.result)
unfolding check_min count_time count_bytes
step_keeps i b s h = ground arith

loop_keeps :
    (i : ℕ) (s : Search) (q : List Buffer)
    → s.max_hit ≡ false
    → ((loop i s q).max_idx ≡ s.max_idx) × ((loop i s q).result ≡ s.result)
unfolding limits_loop
loop_keeps i s [] h = (refl, refl)
loop_keeps i s (b ∷ q) h =
    let k = step_keeps i b s h in
    let r = loop_keeps (i + 1) (step i b s) q k.0 in rw (loop-cons i s b q h) (r.0 ∙ k.1, r.1 ∙ k.2)

-- The index of the buffer with which the bytes counted from the newest one reach `limit`, or of
-- the last buffer.
pub reach : ℕ → ℕ → ℕ → List Buffer → ℕ
reach limit acc i [] = i - 1
reach limit acc i (b ∷ q) =
    let rest = reach limit (acc + size b) (i + 1) q in if leb limit (acc + size b) then i else rest

unfoldable pub total_size : List Buffer → ℕ
total_size [] = 0
total_size (b ∷ q) = size b + total_size q

step_found : (i m : ℕ) (b : Buffer) (s : Search) → s.min_idx ≡ pos m → (step i b s).min_idx ≡ pos m
unfolding check_min count_time count_bytes
step_found i m b s e = ground arith

found_keeps :
    (i m : ℕ) (s : Search) (q : List Buffer)
    → s.max_hit ≡ false
    → s.min_idx ≡ pos m
    → (loop i s q).min_idx ≡ pos m
unfolding limits_loop
found_keeps i m s [] h e = e
found_keeps i m s (b ∷ q) h e =
    rw (loop-cons i s b q h)
      (found_keeps (i + 1) m (step i b s) q (step_keeps i b s h).0 (step_found i m b s e))

-- Where the loop has reached its minimum, the next round notes the index.
step_marks :
    (i : ℕ) (s : Search) (b : Buffer)
    → s.bytes_min ≡ minus_one
    → s.time_min ≡ minus_one
    → s.min_idx ≡ minus_one
    → (step (i + 1) b s).min_idx ≡ pos i
unfolding check_min count_time count_bytes
step_marks i s b eb et em = ground arith

reached :
    (i : ℕ) (s : Search) (b : Buffer) (q : List Buffer)
    → s.max_hit ≡ false
    → s.bytes_min ≡ minus_one
    → s.time_min ≡ minus_one
    → s.min_idx ≡ minus_one
    → (loop (i + 1) s (b ∷ q)).min_idx ≡ pos i
reached i s b q h eb et em =
    rw (loop-cons (i + 1) s b q h)
      (found_keeps (i + 1 + 1) i _ q (step_keeps (i + 1) b s h).0 (step_marks i s b eb et em))

-- The loop looks for `limit` bytes, and has counted `acc`.
record Searching (limit acc : ℕ) (s : Search) : Type 0 where
  running : s.max_hit ≡ false
  wanted : s.bytes_min ≡ pos limit
  no_time : s.time_min ≡ minus_one
  unset : s.min_idx ≡ minus_one
  counted : s.total ≡ pos acc

step_miss :
    (limit acc i : ℕ) (s : Search) (b : Buffer)
    → acc + size b < two_31
    → leb limit (acc + size b) ≡ false
    → Searching limit acc s
    → Searching limit (acc + size b) (step i b s)
unfolding check_min count_time count_bytes
step_miss limit acc i s b small miss v = ground (arith, add_size_gint_small acc (size b))

step_hit :
    (limit acc i : ℕ) (s : Search) (b : Buffer)
    → acc + size b < two_31
    → leb limit (acc + size b) ≡ true
    → Searching limit acc s
    → ((step i b s).max_hit ≡ false)
      × ((step i b s).bytes_min ≡ minus_one)
      × ((step i b s).time_min ≡ minus_one)
      × ((step i b s).min_idx ≡ minus_one)
unfolding check_min count_time count_bytes
step_hit limit acc i s b small hit v = ground (arith, add_size_gint_small acc (size b))

-- The least index of a search for `limit` bytes, as `finish` will complete it.
abbrev Least : ℕ → ℕ → ℕ → List Buffer → Search → Type 0
Least limit acc i q r =
    (r.min_idx ≡ pos (reach limit acc i q))
    ⊎ ((r.min_idx ≡ minus_one) × (reach limit acc i q ≡ i + length q - 1))

Least-hit :
    (limit acc i : ℕ) (s : Search) (b : Buffer) (q : List Buffer)
    → leb limit (acc + size b) ≡ true
    → s.max_hit ≡ false
    → s.bytes_min ≡ minus_one
    → s.time_min ≡ minus_one
    → s.min_idx ≡ minus_one
    → Least limit acc i (b ∷ q) (loop (i + 1) s q)
unfolding reach limits_loop
Least-hit limit acc i s b [] hit h eb et em = inr (em, rw hit (omega arith))
Least-hit limit acc i s b (c ∷ q) hit h eb et em = inl (rw hit (reached i s c q h eb et em))

searching :
    (limit acc i : ℕ) (s : Search) (q : List Buffer)
    → acc + total_size q < two_31
    → Searching limit acc s
    → Least limit acc i q (loop i s q)
unfolding reach limits_loop total_size
searching limit acc i s [] small v = inr (v.unset, omega arith)
searching limit acc i s (b ∷ q) small v =
    rw (loop-cons i s b q v.running) (elim (Bool-cases (leb limit (acc + size b))) [
      | inl hit ↦
          let r = step_hit limit acc i s b (omega arith) hit v in
          Least-hit limit acc i (step i b s) b q hit r.0 r.1 r.2 r.3
      | inr miss ↦ go miss (
          searching limit (acc + size b) (i + 1) (step i b s) q (omega arith)
            (step_miss limit acc i s b (omega arith) miss v))
    ])
  where
    go :
        leb limit (acc + size b) ≡ false
        → Least limit (acc + size b) (i + 1) q (loop (i + 1) (step i b s) q)
        → Least limit acc i (b ∷ q) (loop (i + 1) (step i b s) q)
    go miss (inl e) = inl (rw miss e)
    go miss (inr (e, f)) = inr (e, rw miss (omega (arith, f)))

finish_least :
    (len n : ℕ) (s : Search)
    → s.max_idx ≡ minus_one
    → (s.min_idx ≡ pos n) ⊎ ((s.min_idx ≡ minus_one) × (n ≡ 0 + len - 1))
    → (finish len s).min_idx ≡ pos n
unfolding finish
finish_least len n s e h = ground arith

-- With a minimum in bytes alone, and fewer than 2 ^ 31 bytes in the queue, `find_limits` returns
-- the index of the buffer with which the bytes from the newest buffer on reach that minimum, or
-- the last index where the queue holds less.
pub find_limits-bytes :
    (q : List Buffer) (l : Bounds) (limit : ℕ)
    → 0 < length q
    → total_size q < two_31
    → l.bytes_min ≡ pos limit
    → l.buffers_min ≡ minus_one
    → l.time_min ≡ minus_one
    → l.bytes_max ≡ minus_one
    → l.time_max ≡ minus_one
    → (find_limits q l).min_idx ≡ pos (reach limit 0 0 q)
unfolding find_limits
find_limits-bytes q l limit h small eb ef et em en =
    rw (ef, em, en)
      (finish_least (length q) (reach limit 0 0 q) (loop 0 (start l) q)
        (loop_keeps 0 (start l) q refl).0
        (searching limit 0 0 (start l) q (omega arith)
          (record { running = refl; wanted = eb; no_time = et; unset = refl; counted = refl })))
