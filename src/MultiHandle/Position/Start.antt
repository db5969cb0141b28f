-- ===== src/MultiHandle/Position/Start.antt =====
-- Where a new client starts.
use pulsevideo.Base.{
  ℕ, ◌-◌, ◌<◌, ◌≡◌, refl, false, not, ◌⊎◌, inl, inr, List, length, ℤ, pos, minus_one, ◌-ℤ◌, eqb_ℤ,
  if◌then◌else◌, leb, if_cases, ap, arith,
}
use pulsevideo.MultiHandle.Types.{
  Buffer, Client, SyncMethod, latest, next_keyframe, latest_keyframe, burst, burst_keyframe,
  burst_with_keyframe,
}
use pulsevideo.MultiHandle.Keyframe.{find_next_syncframe, find_prev_syncframe}
use pulsevideo.MultiHandle.Keyframe.Search.{
  IsKeyframePosition, find_next_syncframe-IsKeyframePosition,
  find_prev_syncframe-IsKeyframePosition,
}
use pulsevideo.MultiHandle.Limits.{Limits}
use pulsevideo.MultiHandle.Limits.Range.{InQueue, count_burst_unit-InQueue}
use pulsevideo.MultiHandle.Position.{
  client_limits, capped, between, position_by, new_client_position,
}

-- What the code leaves of a client that it cannot place: it waits at -1, for the next key frame
-- or for what its sync method says.
abbrev pub Waits : Client → Client → Type 0
Waits c c' = (m : SyncMethod) × (c' ≡ record c { bufpos = minus_one; sync_method = m })

-- The client is placed at an index of the queue and is otherwise unchanged, or it waits.
abbrev pub IsPlaced : List Buffer → Client → ℤ × Client → Type 0
IsPlaced q c r =
    ((r.0 ≡ minus_one) × Waits c r.1) ⊎ ((k : ℕ) × (r.0 ≡ pos k) × (k < length q) × (r.1 ≡ c))

capped_index : (len : ℕ) (l : Limits) → InQueue len l → (k : ℕ) × (capped l ≡ pos k) × (k < len)
unfolding capped ◌-ℤ◌
capped_index len l (m, k, em, ek, le, lt) =
    ((if leb k m then k - 1 else m), ground arith, ground arith)

-- A search that found a key frame, and one that did not.
IsPlaced-search :
    (q : List Buffer) (c c' : Client) (r : ℤ)
    → IsKeyframePosition q r
    → Waits c c'
    → IsPlaced q c (if eqb_ℤ r minus_one then (r, c') else (r, c))
IsPlaced-search q c c' r (inl e) w = rw e (inl (refl, w))
IsPlaced-search q c c' r (inr (k, e, h, s)) w = rw e (inr (k, refl, h, refl))

IsPlaced-found :
    (q : List Buffer) (c : Client) (r : ℤ)
    → IsKeyframePosition q r
    → eqb_ℤ r minus_one ≡ false
    → IsPlaced q c (r, c)
IsPlaced-found q c r (inl e) f = cc (ap (λ x. eqb_ℤ x minus_one) e)
IsPlaced-found q c r (inr (k, e, h, s)) f = inr (k, e, h, refl)

module _ (q : List Buffer) (c : Client) (l : Limits) (in_queue : InQueue (length q) l) where
  next_IsKeyframePosition : IsKeyframePosition q (find_next_syncframe q l.min_idx)
  next_IsKeyframePosition =
      let (m, k, em, ek, le, lt) = in_queue in rw em (find_next_syncframe-IsKeyframePosition q m)

  prev_IsKeyframePosition : IsKeyframePosition q (find_prev_syncframe q l.min_idx)
  prev_IsKeyframePosition =
      let (m, k, em, ek, le, lt) = in_queue in
      rw em (find_prev_syncframe-IsKeyframePosition q m (omega arith))

  capped-IsPlaced : IsPlaced q c (capped l, c)
  capped-IsPlaced = let (k, e, h) = capped_index (length q) l in_queue in inr (k, e, h, refl)

  keyframe_IsPlaced :
      (c' : Client)
      → Waits c c'
      → IsPlaced q c (
          if between (find_next_syncframe q l.min_idx) l
          then (find_next_syncframe q l.min_idx, c)
          else if not (eqb_ℤ (find_prev_syncframe q l.min_idx) minus_one)
          then (find_prev_syncframe q l.min_idx, c)
          else (minus_one, c'))
  keyframe_IsPlaced c' w =
      if_cases (IsPlaced q c) (between (find_next_syncframe q l.min_idx) l)
        (λ t. IsPlaced-found q c _ next_IsKeyframePosition (ground arith))
        (λ f.
          if_cases (IsPlaced q c) (not (eqb_ℤ (find_prev_syncframe q l.min_idx) minus_one))
            (λ t. IsPlaced-found q c _ prev_IsKeyframePosition (ground arith)) (λ g. inl (refl, w)))

  with_keyframe_IsPlaced : IsPlaced q c (
      if between (find_next_syncframe q l.min_idx) l
      then (find_next_syncframe q l.min_idx, c)
      else (capped l, c))
  with_keyframe_IsPlaced =
      if_cases (IsPlaced q c) (between (find_next_syncframe q l.min_idx) l)
        (λ t. IsPlaced-found q c _ next_IsKeyframePosition (ground arith)) (λ f. capped-IsPlaced)

-- A client that stands at an index of the queue gets an index of the queue and stays as it is,
-- or it gets -1 and is put to wait there, whatever its sync method is.
pub new_client_position-IsPlaced :
    (q : List Buffer) (c : Client) (p : ℕ)
    → c.bufpos ≡ pos p
    → p < length q
    → IsPlaced q c (new_client_position q c)
unfolding new_client_position position_by
new_client_position-IsPlaced q c p e h = by_method c.sync_method
  where
    limits : InQueue (length q) (client_limits q c)
    limits = count_burst_unit-InQueue q _ _ _ _ (omega arith)

    by_method : (m : SyncMethod) → IsPlaced q c (position_by m q c)
    by_method latest = inr (p, e, h, refl)
    by_method next_keyframe =
        IsPlaced-search q c _ (find_prev_syncframe q c.bufpos)
          (rw e (find_prev_syncframe-IsKeyframePosition q p h)) (c.sync_method, refl)
    by_method latest_keyframe =
        IsPlaced-search q c _ _ (find_next_syncframe-IsKeyframePosition q 0) (next_keyframe, refl)
    by_method burst = capped-IsPlaced q c (client_limits q c) limits
    by_method burst_keyframe =
        keyframe_IsPlaced q c (client_limits q c) limits _ (next_keyframe, refl)
    by_method burst_with_keyframe = with_keyframe_IsPlaced q c (client_limits q c) limits

-- The sync methods that start a client on a key frame.
abbrev pub StartsOnKeyframe : SyncMethod → Type 0
StartsOnKeyframe next_keyframe = Unit
StartsOnKeyframe latest_keyframe = Unit
StartsOnKeyframe burst_keyframe = Unit
StartsOnKeyframe _ = ⊥

-- Under a sync method that promises a key frame, a client starts at the index of a key frame of
-- the queue, or waits at -1.
pub new_client_position-IsKeyframePosition :
    (q : List Buffer) (c : Client) (p : ℕ)
    → c.bufpos ≡ pos p
    → p < length q
    → StartsOnKeyframe c.sync_method
    → IsKeyframePosition q (new_client_position q c).0
unfolding new_client_position position_by
new_client_position-IsKeyframePosition q c p e h = by_method c.sync_method
  where
    OnKeyframe : ℤ × Client → Type 0
    OnKeyframe r = IsKeyframePosition q r.0

    l : Limits
    l = client_limits q c

    limits : InQueue (length q) l
    limits = count_burst_unit-InQueue q _ _ _ _ (omega arith)

    by_method : (m : SyncMethod) → StartsOnKeyframe m → IsKeyframePosition q (position_by m q c).0
    by_method next_keyframe _ =
        let found : IsKeyframePosition q (find_prev_syncframe q c.bufpos) =
          rw e (find_prev_syncframe-IsKeyframePosition q p h) in
        if_cases OnKeyframe (eqb_ℤ (find_prev_syncframe q c.bufpos) minus_one) (λ t. found)
          (λ f. found)
    by_method latest_keyframe _ =
        let found = find_next_syncframe-IsKeyframePosition q 0 in
        if_cases OnKeyframe (eqb_ℤ (find_next_syncframe q (pos 0)) minus_one) (λ t. found)
          (λ f. found)
    by_method burst_keyframe _ =
        if_cases OnKeyframe (between (find_next_syncframe q l.min_idx) l)
          (λ t. next_IsKeyframePosition q c l limits)
          (λ f.
            if_cases OnKeyframe (not (eqb_ℤ (find_prev_syncframe q l.min_idx) minus_one))
              (λ t. prev_IsKeyframePosition q c l limits) (λ g. inl refl))
    by_method latest w = absurd w
    by_method burst w = absurd w
    by_method burst_with_keyframe w = absurd w
