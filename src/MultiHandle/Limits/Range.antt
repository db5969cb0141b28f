-- ===== src/MultiHandle/Limits/Range.antt =====
-- Where the limits lie in the queue.
use pulsevideo.Base.{
  ℕ, ◌+◌, ◌-◌, ◌≤◌, ◌<◌, ◌≡◌, refl, true, ◌⊎◌, inl, inr, List, [], ◌∷◌, length, ℤ, pos, minus_one,
  if_cases, arith, not, ◌&&◌, eqb_ℤ, ltb_ℤ,
}
use pulsevideo.MultiHandle.Types.{Buffer, Format}
use pulsevideo.MultiHandle.Limits.{
  Search, Limits, Bounds, check_min, count_time, count_bytes, limits_loop, finish, find_limits,
  count_burst_unit, start, burst_bounds,
}

-- At index `i` of the loop: the least index found is not past the buffer before `i`.
record InLoop (i : ℕ) (s : Search) : Type 0 where
  low : (s.min_idx ≡ minus_one) ⊎ ((m : ℕ) × (s.min_idx ≡ pos m) × (m ≤ i - 1))
  unset : s.max_idx ≡ minus_one
  hit : s.max_hit ≡ true → 0 < i

-- After the loop over a queue of `len` buffers.
record Found (len : ℕ) (s : Search) : Type 0 where
  low : (s.min_idx ≡ minus_one) ⊎ ((m : ℕ) × (s.min_idx ≡ pos m) × (m ≤ len - 1))
  high :
      (s.max_idx ≡ minus_one)
      ⊎ ((k : ℕ) × (s.max_idx ≡ pos k)
          × (k < len)
          × ((s.min_idx ≡ minus_one) ⊎ ((m : ℕ) × (s.min_idx ≡ pos m) × (m ≤ k))))

check_min-InLoop : (i : ℕ) (s : Search) → InLoop i s → InLoop i (check_min i s)
unfolding check_min
check_min-InLoop i s v = ground arith

count-InLoop :
    (bm tm : ℤ) (i : ℕ) (b : Buffer) (s : Search)
    → InLoop i s
    → InLoop (i + 1) (count_bytes bm b (count_time tm b s))
unfolding count_bytes count_time
count-InLoop bm tm i b s v = ground arith

-- The loop is left in the middle.
stop-Found :
    (i len : ℕ) (s s' : Search)
    → i < len
    → 0 < i
    → InLoop i s
    → s'.min_idx ≡ s.min_idx
    → s'.max_idx ≡ pos (i - 1)
    → Found len s'
stop-Found i len s s' h k v low high = record {
  low = ground (arith, v.low);
  high = inr (i - 1, high, omega arith, rw low v.low);
}

limits_loop-Found :
    (bm tm : ℤ) (i len : ℕ) (s : Search) (q : List Buffer)
    → i + length q ≡ len
    → InLoop i s
    → Found len (limits_loop bm tm i s q)
unfolding limits_loop
limits_loop-Found bm tm i len s [] e v = record { low = ground arith; high = inl v.unset }
limits_loop-Found bm tm i len s (b ∷ q) e v =
    let v' = check_min-InLoop i s v in
    if_cases (Found len) (check_min i s).max_hit
      (λ t. stop-Found i len (check_min i s) _ (omega arith) (v'.hit t) v' refl refl)
      (λ f.
        limits_loop-Found bm tm (i + 1) len _ q (omega arith)
          (count-InLoop bm tm i b (check_min i s) v'))

-- Both limits are indices of the queue, the lower one first.
abbrev pub InQueue : ℕ → Limits → Type 0
InQueue len l = (m : ℕ) × (k : ℕ) × (l.min_idx ≡ pos m) × (l.max_idx ≡ pos k) × (m ≤ k) × (k < len)

finish-InQueue : (len : ℕ) (s : Search) → 0 < len → Found len s → InQueue len (finish len s)
unfolding finish
finish-InQueue len s h v = elim v.high [
  | inl e ↦ elim v.low [
    | inl m ↦ (len - 1, len - 1, rw (m, e), rw e, omega arith, omega arith)
    | inr (m, em, hm) ↦ (m, len - 1, ground arith, ground arith, omega arith, omega arith)
  ]
  | inr (k, ek, hk, low) ↦ elim low [
    | inl m ↦ (k, k, ground arith, ground arith, omega arith, hk)
    | inr (m, em, hm) ↦ (m, k, ground arith, ground arith, hm, hk)
  ]
]

-- In a queue that holds a buffer, whatever the limits and the timestamps are, `find_limits`
-- returns two indices of the queue, and the first is at most the second.
pub find_limits-InQueue :
    (q : List Buffer) (l : Bounds) → 0 < length q → InQueue (length q) (find_limits q l)
unfolding find_limits
find_limits-InQueue q l h =
    let found =
      limits_loop-Found l.bytes_max l.time_max 0 (length q) (start l) q (omega arith)
        (record { low = inl refl; unset = refl; hit = λ e. cc }) in
    if_cases (InQueue (length q))
      (not (eqb_ℤ l.buffers_min minus_one) && ltb_ℤ (pos (length q)) l.buffers_min)
      (λ t. (length q - 1, length q - 1, refl, refl, omega arith, omega arith))
      (λ f. finish-InQueue (length q) _ h found)

-- So are the limits that count_burst_unit returns.
pub count_burst_unit-InQueue :
    (q : List Buffer) (f : Format) (v : ℕ) (g : Format) (w : ℕ)
    → 0 < length q
    → InQueue (length q) (count_burst_unit q f v g w)
unfolding count_burst_unit
count_burst_unit-InQueue q f v g w h = find_limits-InQueue q (burst_bounds f v g w) h
