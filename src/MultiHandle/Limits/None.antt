-- ===== src/MultiHandle/Limits/None.antt =====
-- find_limits and get_buffers_max where nothing is asked for but a number of buffers.
use pulsevideo.Base.{
  ℕ, ◌+◌, ◌-◌, ◌<◌, ◌≡◌, refl, ap, ◌∙◌, Bool, true, false, ◌&&◌, if◌then◌else◌, if_cases, List, [],
  ◌∷◌, length, ℤ, pos, minus_one, eqb_ℤ, to_u64, to_gint, two_31, arith,
}
use pulsevideo.MultiHandle.Types.{Buffer, buffers, timestamp_is_valid}
use pulsevideo.MultiHandle.Limits.{
  Search, Bounds, check_min, count_time, count_bytes, limits_loop, finish, find_limits,
  get_buffers_max,
}

-- No limit at all.
abbrev pub unlimited : Bounds
unlimited = record {
  bytes_min = minus_one;
  buffers_min = minus_one;
  time_min = minus_one;
  bytes_max = minus_one;
  buffers_max = minus_one;
  time_max = minus_one;
}

both_and : (a b c : Bool) → c ≡ false → (a && b && c) ≡ false
both_and true true c e = e
both_and true false c e = refl
both_and false b c e = refl

-- A minimum that was found stays.
check_min_same : (i : ℕ) (s : Search) → s.min_idx ≡ pos 0 → check_min i s ≡ s
unfolding check_min
check_min_same i s e =
    ap (λ b. if b then record s { min_idx = pos (i - 1) } else s)
      (both_and (eqb_ℤ s.bytes_min minus_one) (eqb_ℤ s.time_min minus_one)
        (eqb_ℤ s.min_idx minus_one) (ap (λ m. eqb_ℤ m minus_one) e))

count_time-min_idx : (tm : ℤ) (b : Buffer) (s : Search) → (count_time tm b s).min_idx ≡ s.min_idx
unfolding count_time
count_time-min_idx tm b s =
    if_cases (λ (t : Search). t.min_idx ≡ s.min_idx) (timestamp_is_valid b) (λ t. refl) (λ f. refl)

limits_loop-found :
    (bm tm : ℤ) (i : ℕ) (s : Search) (bs : List Buffer)
    → s.min_idx ≡ pos 0
    → (limits_loop bm tm i s bs).min_idx ≡ pos 0
unfolding limits_loop count_bytes
limits_loop-found bm tm i s [] e = e
limits_loop-found bm tm i s (b ∷ bs) e =
    let found : (check_min i s).min_idx ≡ pos 0 =
      ap (λ (t : Search). t.min_idx) (check_min_same i s e) ∙ e in
    let rest =
      limits_loop-found bm tm (i + 1) (count_bytes bm b (count_time tm b (check_min i s))) bs
        (count_time-min_idx tm b (check_min i s) ∙ found) in
    if_cases (λ (t : Search). t.min_idx ≡ pos 0) (check_min i s).max_hit (λ t. found) (λ f. rest)

finish-found : (len : ℕ) (s : Search) → s.min_idx ≡ pos 0 → (finish len s).min_idx ≡ pos 0
unfolding finish
finish-found len s e =
    ap
      (λ m.
        if eqb_ℤ m minus_one
        then if eqb_ℤ s.max_idx minus_one then pos (len - 1) else s.max_idx
        else m)
      e

-- Without a limit the newest buffer is enough.
pub find_limits-unlimited :
    (b : Buffer) (q : List Buffer) → (find_limits (b ∷ q) unlimited).min_idx ≡ pos 0
unfolding find_limits limits_loop check_min count_bytes
find_limits-unlimited b q =
    finish-found (length (b ∷ q)) _
      (limits_loop-found minus_one minus_one 1 _ q (count_time-min_idx minus_one b _))

-- A limit in buffers is itself.
pub get_buffers_max_small :
    (q : List Buffer) (n : ℕ) → n < two_31 → get_buffers_max buffers q (pos n) ≡ pos n
unfolding get_buffers_max to_gint to_u64
get_buffers_max_small q n h = ground arith
