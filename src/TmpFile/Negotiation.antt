-- ===== src/TmpFile/Negotiation.antt =====
-- gst/tmpfile/gstfdpay.c and gst/tmpfile/gstfddepay.c: the caps of the two elements, the allocation
-- query that fdpay answers, and the clock by which both read times. Caps are of any type, with those
-- of GStreamer and gst_caps_intersect as parameters; a clock, a pool and an allocator are numbers,
-- their identities.
use pulsevideo.Base.{
  max, ℕ, ◌+◌, ◌-◌, ◌≤◌, ◌≡◌, Bool, true, not, if◌then◌else◌, option_case, Option, List, [], ◌∷◌,
  ◌++◌,
}

pub data PadDirection : Type 0 where
  pad_src pad_sink : PadDirection

module _ {ℓ} {C : Type ℓ} (any fd_caps : C) (intersect : C → C → C) where
  abbrev filtered : C → Option C → C
  filtered othercaps filter = option_case filter othercaps (λ f. intersect othercaps f)

  -- gst_fdpay_transform_caps; the caps to transform have no part in it.
  pub pay_transform_caps : PadDirection → Option C → C
  pay_transform_caps pad_src filter = filtered any filter
  pay_transform_caps pad_sink filter = filtered fd_caps filter

  -- gst_fddepay_transform_caps
  pub depay_transform_caps : PadDirection → Option C → C
  depay_transform_caps pad_src filter = filtered fd_caps filter
  depay_transform_caps pad_sink filter = filtered any filter

-- An allocation query: whether it needs a pool, its caps, the allocators that were added to it, and
-- the size and the allocator of each pool.
pub record Query {ℓ} (C : Type ℓ) : Type ℓ where
  pub need_pool : Bool
  pub caps : Option C
  pub allocators : List ℕ
  pub pools : List (ℕ × ℕ)

module _ {ℓ} {C : Type ℓ} (video_info_size : C → Option ℕ) (set_config : C → ℕ → Bool)
    (parent : Query C → Bool × Query C) (allocator : ℕ) where
  pub propose_pool : C → ℕ → Query C → Bool × Query C
  propose_pool caps size query =
      if set_config caps size
      then parent (record query { pools = query.pools ++ ((size, allocator) ∷ []) })
      else (true, query)

  -- gst_fdpay_propose_allocation, with what gst_video_info_from_caps, gst_buffer_pool_set_config and
  -- the parent class answer. The parent class is asked only once a pool is proposed.
  pub propose_allocation : Query C → Bool × Query C
  propose_allocation query =
      let plain = record query { allocators = query.allocators ++ (allocator ∷ []) } in
      if not query.need_pool
      then (true, plain)
      else option_case query.caps (true, plain)
          (λ caps.
            option_case (video_info_size caps) (true, plain) (λ size. propose_pool caps size plain))

-- The times of a clock and of its master that fit, and the rate of the one by the other.
pub record Calibration : Type 0 where
  pub internal : ℕ
  pub external : ℕ
  pub num : ℕ
  pub denom : ℕ

-- What the monotonic clock of an element has been told.
pub record Monotonic : Type 0 where
  pub master : Option ℕ
  pub calibration : Calibration

-- What the two set_clock functions ask of GStreamer: whether gst_clock_set_master works, the internal
-- time, the time of a clock, and the answer of the parent class.
pub record ClockCalls : Type 0 where
  pub set_master : Option ℕ → Bool
  pub internal_time : ℕ
  pub get_time : ℕ → ℕ
  pub parent_set_clock : Option ℕ → Bool

abbrev calibrate : ClockCalls → Option ℕ → Monotonic → Monotonic
calibrate calls clock k = option_case clock k (λ c. record k {
  calibration = record {
    internal = calls.internal_time;
    external = calls.get_time c;
    num = 1;
    denom = 1;
  };
})

-- gst_fdpay_set_clock and gst_fddepay_set_clock, which differ in nothing but the type of the element.
pub set_clock : ClockCalls → Option ℕ → Monotonic → Bool × Monotonic
set_clock calls clock k =
    let set = calibrate calls clock (record k { master = clock }) in
    (calls.parent_set_clock clock, if calls.set_master clock then set else k)

-- gst_clock_adjust_unlocked and gst_clock_unadjust_unlocked at the rate 1, as they are documented, of
-- times after the calibration. The first makes sure that the time that it returns is no earlier than
-- `last`, the one that it returned before.
pub record AtRateOne (adjust : Calibration → ℕ → ℕ → ℕ) (unadjust : Calibration → ℕ → ℕ)
    : Type 0 where
  pub adjust_one :
      (c : Calibration) (last x : ℕ)
      → c.num ≡ 1
      → c.denom ≡ 1
      → c.internal ≤ x
      → adjust c last x ≡ max last (c.external + (x - c.internal))
  pub unadjust_one :
      (c : Calibration) (x : ℕ)
      → c.num ≡ 1
      → c.denom ≡ 1
      → c.external ≤ x
      → unadjust c x ≡ c.internal + (x - c.external)
