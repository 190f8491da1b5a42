-- ===== src/Advice/Exposure/Summary.antt =====
-- The summary of a horizon: the side it names, and the neutral seat.
use sombreado_service.Base.{
  ℕ, ◌+◌, ◌-◌, ◌≤◌, ◌<◌, ◌≡◌, refl, inl, inr, true, List, [], ◌∷◌, ltb, ◌==◌, All, arith,
  Bool-cases, if◌then◌else◌,
}
use sombreado_service.Advice.{ExposureDirection, SunPosition, SegmentForAdvice}
use sombreado_service.Advice.Exposure.{
  AdviceHorizonSummary, exposure_direction, same_direction, directions, breakdown, total_of,
  max_from, dominant_of, integer_percent_shares, summarize_advice_horizon,
}
use sombreado_service.Advice.Exposure.Shares.{IsDivided, integer_percent_shares-IsDivided}

module _ (meters : ExposureDirection → ℕ) where
  max_from-best :
      (best : ExposureDirection) (ds : List ExposureDirection)
      → meters best ≤ meters (max_from meters best ds)
  unfolding max_from
  max_from-best best [] = omega arith
  max_from-best best (d ∷ ds) = elim (Bool-cases (ltb (meters best) (meters d))) [
    | inl p ↦ rw p (omega (arith, max_from-best d ds, below p))
    | inr p ↦ rw p (max_from-best best ds)
  ]
    where
      below : ltb (meters best) (meters d) ≡ true → meters best ≤ meters d
      below p = ground (arith, p)

  larger-right :
      (a b : ExposureDirection) → meters b ≤ meters (if ltb (meters a) (meters b) then b else a)
  larger-right a b = elim (Bool-cases (ltb (meters a) (meters b))) [
    | inl p ↦ rw p (omega arith)
    | inr p ↦ rw p (ground (arith, p))
  ]

  max_from-All :
      (best : ExposureDirection) (ds : List ExposureDirection) (m : ℕ)
      → meters (max_from meters best ds) ≤ m
      → All (λ d. meters d ≤ m) ds
  unfolding max_from
  max_from-All best [] m e = tt
  max_from-All best (d ∷ ds) m e = (
    omega (
      arith,
      larger-right best d,
      max_from-best (if ltb (meters best) (meters d) then d else best) ds,
      e,
    ),
    max_from-All (if ltb (meters best) (meters d) then d else best) ds m e,
  )

  -- The named side has the largest distance.
  dominant_of-largest : (d : ExposureDirection) → meters d ≤ meters (dominant_of meters)
  unfolding dominant_of total_of
  dominant_of-largest d = elim (Bool-cases (total_of meters directions == 0)) [
    | inl p ↦ rw p (by_zero d (ground (arith, p)))
    | inr p ↦ rw p (by_member d (max_from-All ExposureDirection.left directions _ (omega arith)))
  ]
    where
      by_zero :
          (d : ExposureDirection)
          → total_of meters directions ≡ 0
          → meters d ≤ meters ExposureDirection.none
      by_zero ExposureDirection.left e = omega (arith, e)
      by_zero ExposureDirection.right e = omega (arith, e)
      by_zero ExposureDirection.front e = omega (arith, e)
      by_zero ExposureDirection.back e = omega (arith, e)
      by_zero ExposureDirection.overhead e = omega (arith, e)
      by_zero ExposureDirection.none e = omega arith

      by_member :
          (d : ExposureDirection)
          → All
              (λ x. meters x ≤ meters (max_from meters ExposureDirection.left directions))
              directions
          → meters d ≤ meters (max_from meters ExposureDirection.left directions)
      by_member ExposureDirection.left h = h.0
      by_member ExposureDirection.right h = h.1.0
      by_member ExposureDirection.front h = h.1.1.0
      by_member ExposureDirection.back h = h.1.1.1.0
      by_member ExposureDirection.overhead h = h.1.1.1.1.0
      by_member ExposureDirection.none h = h.1.1.1.1.1.0

-- The length of a list of segments.
abbrev pub length_of : List (SegmentForAdvice × SunPosition) → ℕ
length_of [] = 0
length_of ((segment, sun) ∷ rest) = segment.distance_meters + length_of rest

-- Each segment counts in exactly one of the six directions.
pub total_of-breakdown :
    (pairs : List (SegmentForAdvice × SunPosition))
    → total_of (λ d. breakdown d pairs) directions ≡ length_of pairs
unfolding breakdown total_of
total_of-breakdown [] = refl
total_of-breakdown ((segment, sun) ∷ rest) =
    by_side (total_of-breakdown rest) (exposure_direction sun segment.bearing_degrees)
  where
    more : ExposureDirection → ExposureDirection → ℕ
    more e d =
        if same_direction d e then segment.distance_meters + breakdown d rest else breakdown d rest

    by_side :
        total_of (λ d. breakdown d rest) directions ≡ length_of rest
        → (e : ExposureDirection)
        → total_of (more e) directions ≡ segment.distance_meters + length_of rest
    by_side h ExposureDirection.left = omega (arith, h)
    by_side h ExposureDirection.right = omega (arith, h)
    by_side h ExposureDirection.front = omega (arith, h)
    by_side h ExposureDirection.back = omega (arith, h)
    by_side h ExposureDirection.overhead = omega (arith, h)
    by_side h ExposureDirection.none = omega (arith, h)

-- What a summary says of the segments.
pub record IsSummary (pairs : List (SegmentForAdvice × SunPosition)) (s : AdviceHorizonSummary)
    : Type 0 where
  pub total : s.total_distance_meters ≡ length_of pairs
  pub largest : (d : ExposureDirection) → breakdown d pairs ≤ breakdown s.direct_sun_exposure pairs
  pub shares : s.exposure_shares.left + s.exposure_shares.right + s.exposure_shares.shade ≡ 100
  pub flips :
      s.horizon_flip ≡ true
      → (0 < breakdown ExposureDirection.left pairs) × (0 < breakdown ExposureDirection.right pairs)

-- The total is the length of the segments; the named side has the largest distance; the shares sum
-- to 100; and a flip is reported only if the sun shines on both sides on the way.
pub summarize_advice_horizon-IsSummary :
    (pairs : List (SegmentForAdvice × SunPosition))
    → IsSummary pairs (summarize_advice_horizon pairs)
unfolding summarize_advice_horizon
summarize_advice_horizon-IsSummary pairs = record {
  total = total_of-breakdown pairs;
  largest = dominant_of-largest (λ d. breakdown d pairs);
  shares = divided.sums;
  flips = λ e. (ground (arith, e, divided.left_zero), ground (arith, e, divided.right_zero));
}
  where
    left : ℕ
    left = breakdown ExposureDirection.left pairs

    right : ℕ
    right = breakdown ExposureDirection.right pairs

    shade : ℕ
    shade = total_of (λ d. breakdown d pairs) directions - left - right

    divided : IsDivided left right (integer_percent_shares left right shade)
    divided = integer_percent_shares-IsDivided left right shade
