-- ===== src/RawVideoValidate.antt =====
-- gst/gstrawvideovalidate.c: the element that drops raw video buffers of the wrong size. The size that
-- gst_video_info_from_caps finds for caps is a parameter; caps are numbers, their identities.
use pulsevideo.Base.{
  ℕ, ◌≡◌, ◌⊎◌, inl, inr, refl, subst, Bool-cases, Bool, true, false, not, ◌&&◌, if◌then◌else◌,
  if_cases, option_case, ◌==◌, Option, none, some, List, [], ◌∷◌, length, All, arith,
}

-- GstRawVideoValidate: its caps, and the size of its GstVideoInfo, which is 0 if it is unknown.
pub record RawVideoValidate : Type 0 where
  pub caps : Option ℕ
  pub info_size : ℕ

pub data Flow : Type 0 where
  flow_ok flow_dropped : Flow

-- gst_raw_video_validate_init and gst_raw_video_validate_dispose
pub init : RawVideoValidate
init = record { caps = none; info_size = 0 }

pub dispose : RawVideoValidate → RawVideoValidate
dispose element = record element { caps = none }

module _ (info_from_caps : ℕ → Option ℕ) where
  -- gst_raw_video_validate_set_caps
  pub set_caps : ℕ → RawVideoValidate → RawVideoValidate
  set_caps incaps element = record element {
    caps = some incaps;
    info_size = option_case (info_from_caps incaps) 0 (λ size. size);
  }

-- gst_raw_video_validate_transform_ip, of a buffer of this size.
pub transform_ip : RawVideoValidate → ℕ → Flow
transform_ip element buffer_size =
    if not (element.info_size == 0) && not (buffer_size == element.info_size)
    then flow_dropped
    else flow_ok

-- What happens on the sink pad, and the buffers that leave the element.
pub data Item : Type 0 where
  new_caps : ℕ → Item
  buffer : List ℕ → Item

abbrev is_ok : Flow → Bool
is_ok flow_ok = true
is_ok flow_dropped = false

module _ (info_from_caps : ℕ → Option ℕ) where
  pub passed : List Item → RawVideoValidate → List (Option ℕ × List ℕ)
  passed [] element = []
  passed (new_caps c ∷ items) element = passed items (set_caps info_from_caps c element)
  passed (buffer b ∷ items) element =
      let rest = passed items element in
      if is_ok (transform_ip element (length b)) then (element.caps, b) ∷ rest else rest

  -- The size of a buffer is the one that its caps ask for, if they ask for one that is not 0.
  abbrev pub Fits : Option ℕ → ℕ → Type 0
  Fits none n = Unit {0}
  Fits (some c) n = option_case (info_from_caps c) (Unit {0}) (λ size. (size ≡ 0) ⊎ (n ≡ size))

  size_cases :
      (size n : ℕ)
      → is_ok (if not (size == 0) && not (n == size) then flow_dropped else flow_ok) ≡ true
      → (size ≡ 0) ⊎ (n ≡ size)
  size_cases size n h = elim (Bool-cases (size == 0)) [
    | inl t ↦ inl (ground arith)
    | inr f ↦ elim (Bool-cases (n == size)) [ inl t ↦ inr (ground arith) | inr g ↦ cc ]
  ]

  -- The element knows the size of its caps.
  Knows : RawVideoValidate → Type 0
  Knows e =
      option_case e.caps (e.info_size ≡ 0)
        (λ c. e.info_size ≡ option_case (info_from_caps c) 0 (λ size. size))

  fits : (e : RawVideoValidate) (n : ℕ) → Knows e → is_ok (transform_ip e n) ≡ true → Fits e.caps n
  unfolding Knows transform_ip
  fits e n k h = by_caps e.caps k
    where
      by_size :
          (o : Option ℕ)
          → e.info_size ≡ option_case o 0 (λ size. size)
          → option_case o (Unit {0}) (λ size. (size ≡ 0) ⊎ (n ≡ size))
      by_size none i = tt
      by_size (some size) i = subst (λ k. (k ≡ 0) ⊎ (n ≡ k)) i (size_cases e.info_size n h)

      by_caps :
          (o : Option ℕ)
          → option_case o
              (e.info_size ≡ 0)
              (λ c. e.info_size ≡ option_case (info_from_caps c) 0 (λ size. size))
          → Fits o n
      by_caps none i = tt
      by_caps (some c) i = by_size (info_from_caps c) i

  passed-Fits_from :
      (items : List Item) (e : RawVideoValidate)
      → Knows e
      → All (λ p. Fits p.0 (length p.1)) (passed items e)
  unfolding passed set_caps Knows
  passed-Fits_from [] e k = tt
  passed-Fits_from (new_caps c ∷ items) e k =
      passed-Fits_from items (set_caps info_from_caps c e) refl
  passed-Fits_from (buffer b ∷ items) e k =
      let rest = passed-Fits_from items e k in
      if_cases (All (λ p. Fits p.0 (length p.1))) (is_ok (transform_ip e (length b)))
        (λ t. (fits e (length b) k t, rest)) (λ f. rest)

  -- Every buffer that leaves a new element, through any sequence of caps and buffers, has the size that
  -- its caps ask for, unless they ask for none or for 0.
  pub passed-Fits : (items : List Item) → All (λ p. Fits p.0 (length p.1)) (passed items init)
  unfolding init Knows
  passed-Fits items = passed-Fits_from items init refl
