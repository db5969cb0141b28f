-- ===== src/MultiHandle/Position/Key.antt =====
-- The search for a place of a new client leaves its handle, its address and whether it is being
-- removed.
use pulsevideo.Base.{◌≡◌, refl, if_cases, List, ℤ, not, eqb_ℤ, minus_one}
use pulsevideo.MultiHandle.Types.{
  Buffer, Client, SyncMethod, latest, next_keyframe, latest_keyframe, burst, burst_keyframe,
  burst_with_keyframe,
}
use pulsevideo.MultiHandle.Keyframe.{find_next_syncframe, find_prev_syncframe}
use pulsevideo.MultiHandle.Position.{client_limits, between, position_by, new_client_position}

-- The same client, as the hash table knows it, and being removed if it was.
abbrev pub SameKey : Client → Client → Type 0
SameKey c d =
    (d.handle ≡ c.handle) × (d.ptr ≡ c.ptr) × (d.currently_removing ≡ c.currently_removing)

abbrev PairKey : Client → ℤ × Client → Type 0
PairKey c r = SameKey c r.1

position_by_key : (m : SyncMethod) (q : List Buffer) (c : Client) → PairKey c (position_by m q c)
unfolding position_by
position_by_key latest q c = (refl, refl, refl)
position_by_key next_keyframe q c =
    if_cases (PairKey c) _ (λ t. (refl, refl, refl)) (λ f. (refl, refl, refl))
position_by_key latest_keyframe q c =
    if_cases (PairKey c) _ (λ t. (refl, refl, refl)) (λ f. (refl, refl, refl))
position_by_key burst q c = (refl, refl, refl)
position_by_key burst_keyframe q c =
    let l = client_limits q c in
    if_cases (PairKey c) (between (find_next_syncframe q l.min_idx) l) (λ t. (refl, refl, refl))
      (λ f.
        if_cases (PairKey c) (not (eqb_ℤ (find_prev_syncframe q l.min_idx) minus_one))
          (λ t. (refl, refl, refl)) (λ g. (refl, refl, refl)))
position_by_key burst_with_keyframe q c =
    let l = client_limits q c in
    if_cases (PairKey c) (between (find_next_syncframe q l.min_idx) l) (λ t. (refl, refl, refl))
      (λ f. (refl, refl, refl))

pub new_client_position_key : (q : List Buffer) (c : Client) → SameKey c (new_client_position q c).1
unfolding new_client_position
new_client_position_key q c = position_by_key c.sync_method q c
