-- ===== src/Advice.antt =====
-- Advice, src/sombreado/advice and the types of src/sombreado/domain/schemas.py that it uses. Floats
-- are fixed-point numbers: distances in micrometres (so `round(x, 6)` is the identity), angles in
-- microdegrees, coordinates counted from -180 and -90.
pub mod Exposure
pub mod Projection
pub mod Service
mod Tests
use sombreado_service.Base.{ℕ, ◌+◌, ◌/◌, List, [], ◌∷◌}
use sombreado_service.Store.Errors.{Text}

pub data ExposureDirection : Type 0 where
  left right front back overhead none : ExposureDirection

pub data RecommendedSeatArea : Type 0 where
  left right front back neutral : RecommendedSeatArea

pub data SunCondition : Type 0 where
  daylight night low_sun overhead : SunCondition

pub data AdviceMode : Type 0 where
  onboard preview unavailable : AdviceMode

pub data AdviceHorizon : Type 0 where
  upcoming remaining_route : AdviceHorizon

-- Integers over the native numbers.
pub data ℤ : Type 0 where
  pos : ℕ → ℤ
  negsuc : ℕ → ℤ

pub record SunPosition : Type 0 where
  pub azimuth : ℕ
  pub elevation : ℤ

-- `shade` is the field `none`.
pub record HorizonExposureShares : Type 0 where
  pub left : ℕ
  pub right : ℕ
  pub shade : ℕ

-- A point is (lng, lat); `coordinates` has a first point and others.
pub record RouteSegment : Type 0 where
  pub id : Text
  pub sequence : ℕ
  pub first : ℕ × ℕ
  pub others : List (ℕ × ℕ)
  pub bearing_degrees : ℕ
  pub distance_meters : ℕ
  pub cumulative_distance_meters : ℕ

pub record SegmentForAdvice : Type 0 where
  pub segment_id : Text
  pub sequence : ℕ
  pub midpoint_lat : ℕ
  pub midpoint_lng : ℕ
  pub bearing_degrees : ℕ
  pub distance_meters : ℕ
  pub cumulative_distance_meters : ℕ

pub record ProjectedRoutePosition : Type 0 where
  pub segment_id : Text
  pub segment_sequence : ℕ
  pub lat : ℕ
  pub lng : ℕ
  pub distance_from_route_meters : ℕ
  pub cumulative_distance_meters : ℕ

-- `coordinates[-1]`
abbrev pub last_point : ℕ × ℕ → List (ℕ × ℕ) → ℕ × ℕ
last_point p [] = p
last_point p (q ∷ qs) = last_point q qs

abbrev pub midpoint : RouteSegment → ℕ × ℕ
midpoint s =
    let end = last_point s.first s.others in ((s.first.0 + end.0) / 2, (s.first.1 + end.1) / 2)
