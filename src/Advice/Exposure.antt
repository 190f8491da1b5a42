-- ===== src/Advice/Exposure.antt =====
-- src/sombreado/advice/exposure.py: which side the sun is on, and the summary of a horizon.
pub mod Shares
pub mod Summary
use sombreado_service.Base.{
  ℕ, ◌+◌, ◌-◌, ◌*◌, ◌/◌, ◌%◌, Bool, true, false, ◌&&◌, ◌||◌, Option, some, List, [], ◌∷◌, map, ◌==◌,
  leb, ltb, elem, zero, suc, if◌then◌else◌,
}
use sombreado_service.Base.Order.{sorted}
use sombreado_service.Advice.{
  ExposureDirection, RecommendedSeatArea, SunCondition, ℤ, pos, negsuc, SunPosition,
  HorizonExposureShares, SegmentForAdvice,
}

-- Micrometres in `window_minutes`, from kilometres an hour.
unfoldable pub window_distance_meters : ℕ → ℕ → ℕ
window_distance_meters nominal_bus_speed_kmh window_minutes =
    nominal_bus_speed_kmh * 1000000000 * window_minutes / 60

abbrev pub degrees : ℕ → ℕ
degrees n = n * 1000000

-- `(azimuth - bearing + 180) % 360`, which is `delta + 180`; Python's `%` is not negative.
unfoldable pub turned : ℕ → ℕ → ℕ
turned azimuth bearing =
    (azimuth + (degrees 360 - bearing % degrees 360) + degrees 180) % degrees 360

-- `abs(delta)`
unfoldable pub abs_delta : ℕ → ℕ
abs_delta t = if leb (degrees 180) t then t - degrees 180 else degrees 180 - t

unfoldable pub side : ℕ → ExposureDirection
unfolding abs_delta
side t =
    if leb (abs_delta t) (degrees 20)
    then ExposureDirection.front
    else if leb (degrees 160) (abs_delta t)
    then ExposureDirection.back
    else if ltb (degrees 180) t
    then ExposureDirection.right
    else ExposureDirection.left

unfoldable pub exposure_at : ℤ → ℕ → ℕ → ExposureDirection
unfolding side turned
exposure_at (negsuc _) azimuth bearing = ExposureDirection.none
exposure_at (pos e) azimuth bearing =
    if leb (degrees 70) e then ExposureDirection.overhead else side (turned azimuth bearing)

unfoldable pub exposure_direction : SunPosition → ℕ → ExposureDirection
unfolding exposure_at
exposure_direction sun bearing_degrees = exposure_at sun.elevation sun.azimuth bearing_degrees

unfoldable pub recommended_seat_area : ExposureDirection → RecommendedSeatArea
recommended_seat_area ExposureDirection.left = RecommendedSeatArea.right
recommended_seat_area ExposureDirection.right = RecommendedSeatArea.left
recommended_seat_area ExposureDirection.front = RecommendedSeatArea.back
recommended_seat_area ExposureDirection.back = RecommendedSeatArea.front
recommended_seat_area ExposureDirection.overhead = RecommendedSeatArea.neutral
recommended_seat_area ExposureDirection.none = RecommendedSeatArea.neutral

abbrev pub condition_at : ℤ → SunCondition
condition_at (negsuc _) = SunCondition.night
condition_at (pos e) =
    if ltb e (degrees 10)
    then SunCondition.low_sun
    else if leb (degrees 70) e
    then SunCondition.overhead
    else SunCondition.daylight

unfoldable pub sun_condition : SunPosition → SunCondition
sun_condition sun = condition_at sun.elevation

pub record AdviceHorizonSummary : Type 0 where
  pub total_distance_meters : ℕ
  pub direct_sun_exposure : ExposureDirection
  pub sun_condition : SunCondition
  pub exposure_shares : HorizonExposureShares
  pub horizon_flip : Bool

unfoldable pub recommended_seat_area_for_horizon : AdviceHorizonSummary → RecommendedSeatArea
unfolding recommended_seat_area
recommended_seat_area_for_horizon s =
    if s.horizon_flip
    then RecommendedSeatArea.neutral
    else recommended_seat_area s.direct_sun_exposure

abbrev pub same_direction : ExposureDirection → ExposureDirection → Bool
same_direction ExposureDirection.left ExposureDirection.left = true
same_direction ExposureDirection.right ExposureDirection.right = true
same_direction ExposureDirection.front ExposureDirection.front = true
same_direction ExposureDirection.back ExposureDirection.back = true
same_direction ExposureDirection.overhead ExposureDirection.overhead = true
same_direction ExposureDirection.none ExposureDirection.none = true
same_direction _ _ = false

-- The order of the enumeration, which the dictionary keeps.
abbrev pub directions : List ExposureDirection
directions =
    ExposureDirection.left ∷ ExposureDirection.right ∷ ExposureDirection.front
    ∷ ExposureDirection.back ∷ ExposureDirection.overhead ∷ ExposureDirection.none ∷ []

-- `breakdown[direction]` after the loop over `zip(segments, sun_positions)`.
unfoldable pub breakdown : ExposureDirection → List (SegmentForAdvice × SunPosition) → ℕ
breakdown d [] = 0
breakdown d ((segment, sun) ∷ rest) =
    let more = breakdown d rest in
    if same_direction d (exposure_direction sun segment.bearing_degrees)
    then segment.distance_meters + more
    else more

-- `sum(breakdown.values())`
unfoldable pub total_of : (ExposureDirection → ℕ) → List ExposureDirection → ℕ
total_of meters [] = 0
total_of meters (d ∷ ds) = meters d + total_of meters ds

-- `max(breakdown, key=...)`: the first of the largest.
unfoldable pub max_from :
    (ExposureDirection → ℕ) → ExposureDirection → List ExposureDirection → ExposureDirection
max_from meters best [] = best
max_from meters best (d ∷ ds) =
    max_from meters (if ltb (meters best) (meters d) then d else best) ds

unfoldable pub dominant_of : (ExposureDirection → ℕ) → ExposureDirection
unfolding max_from total_of
dominant_of meters =
    if total_of meters directions == 0
    then ExposureDirection.none
    else max_from meters ExposureDirection.left directions

abbrev pub larger_sample : Option (ℕ × SunPosition) → ℕ → SunPosition → ℕ × SunPosition
larger_sample Option.none distance sun = (distance, sun)
larger_sample (some (best, best_sun)) distance sun =
    if ltb best distance then (distance, sun) else (best, best_sun)

-- `dominant_sample_by_direction.get(d)` after the loop: the first of the longest segments.
unfoldable pub dominant_sample :
    ExposureDirection
    → Option (ℕ × SunPosition)
    → List (SegmentForAdvice × SunPosition)
    → Option (ℕ × SunPosition)
dominant_sample d sample [] = sample
dominant_sample d sample ((segment, sun) ∷ rest) =
    dominant_sample d
      (if same_direction d (exposure_direction sun segment.bearing_degrees)
        then some (larger_sample sample segment.distance_meters sun)
        else sample)
      rest

-- `.get(dominant, (0.0, SunPosition(azimuth=0, elevation=-1)))[1]`
abbrev pub sun_of : Option (ℕ × SunPosition) → SunPosition
sun_of Option.none = record { azimuth = 0; elevation = negsuc 999999 }
sun_of (some (distance, sun)) = sun

-- The key `(raw[index] - floors[index], -index)`, in descending order.
abbrev pub ranks_before : ℕ × ℕ → ℕ × ℕ → Bool
ranks_before (f, i) (g, j) = ltb g f || f == g && leb i j

-- The first `remainder` indices of `order`.
abbrev pub take_indices : ℕ → List (ℕ × ℕ) → List ℕ
take_indices zero xs = []
take_indices (suc n) [] = []
take_indices (suc n) ((f, i) ∷ xs) = i ∷ take_indices n xs

abbrev pub topped_up : List ℕ → ℕ → ℕ → ℕ
topped_up chosen i floor = if elem i chosen then floor + 1 else floor

-- `int(raw[i])` is `distance * 100 / total`, and its fraction is the remainder over `total`.
unfoldable pub percents : ℕ → ℕ → ℕ → ℕ → HorizonExposureShares
percents total left right shade =
    let f0 = left * 100 / total in
    let f1 = right * 100 / total in
    let f2 = shade * 100 / total in
    let chosen = take_indices (100 - (f0 + f1 + f2)) (
      sorted ranks_before
        ((left * 100 % total, 0) ∷ (right * 100 % total, 1) ∷ (shade * 100 % total, 2) ∷ [])) in
    record {
      left = topped_up chosen 0 f0;
      right = topped_up chosen 1 f1;
      shade = topped_up chosen 2 f2;
    }

unfoldable pub integer_percent_shares : ℕ → ℕ → ℕ → HorizonExposureShares
unfolding percents
integer_percent_shares left right shade =
    let total = left + right + shade in
    if total == 0
    then record { left = 0; right = 0; shade = 100 }
    else percents total left right shade

unfoldable pub summarize_advice_horizon :
    List (SegmentForAdvice × SunPosition) → AdviceHorizonSummary
unfolding breakdown total_of dominant_of dominant_sample integer_percent_shares sun_condition
summarize_advice_horizon pairs =
    let meters = λ (d : ExposureDirection). breakdown d pairs in
    let total = total_of meters directions in
    let left = meters ExposureDirection.left in
    let right = meters ExposureDirection.right in
    let shares = integer_percent_shares left right (total - left - right) in
    record {
      total_distance_meters = total;
      direct_sun_exposure = dominant_of meters;
      sun_condition =
          sun_condition (sun_of (dominant_sample (dominant_of meters) Option.none pairs));
      exposure_shares = shares;
      horizon_flip = ltb 0 shares.left && ltb 0 shares.right;
    }

pub record ExposureWindow : Type 0 where
  pub total_distance_meters : ℕ
  pub dominant_direction : ExposureDirection
  pub breakdown_meters : List (ExposureDirection × ℕ)

abbrev pub positive_entries :
    (ExposureDirection → ℕ) → List ExposureDirection → List (ExposureDirection × ℕ)
positive_entries meters [] = []
positive_entries meters (d ∷ ds) =
    let rest = positive_entries meters ds in if ltb 0 (meters d) then (d, meters d) ∷ rest else rest

unfoldable pub summarize_exposure_window : List (SegmentForAdvice × SunPosition) → ExposureWindow
unfolding breakdown total_of dominant_of
summarize_exposure_window pairs =
    let meters = λ (d : ExposureDirection). breakdown d pairs in
    record {
      total_distance_meters = total_of meters directions;
      dominant_direction = dominant_of meters;
      breakdown_meters = positive_entries meters directions;
    }
