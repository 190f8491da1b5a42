-- ===== src/Advice/Tests.antt =====
-- The theorems of the advice at a route of two segments, 100 and 50 metres long, with the sun in the
-- south and then in the north.
use sombreado_service.Base.{
  ℕ, ◌+◌, ◌-◌, ◌*◌, ◌≤◌, ◌≡◌, arith, min, refl, true, false, some, List, [], ◌∷◌, All, ltb,
  if◌then◌else◌,
}
use sombreado_service.Advice.{
  ExposureDirection, AdviceMode, AdviceHorizon, pos, SunPosition, RouteSegment, SegmentForAdvice,
  ProjectedRoutePosition,
}
use sombreado_service.Advice.Exposure.{
  exposure_direction, integer_percent_shares, summarize_advice_horizon,
}
use sombreado_service.Advice.Exposure.Shares.{IsDivided, integer_percent_shares-IsDivided}
use sombreado_service.Advice.Exposure.Summary.{IsSummary, summarize_advice_horizon-IsSummary}
use sombreado_service.Advice.Projection.{
  segment_for_advice, segments_after_projection, segments_from_direction_start,
}
use sombreado_service.Advice.Projection.Budget.{
  distance_of, route_length, segments_after_projection_lem, segments_from_direction_start_lem,
}
use sombreado_service.Advice.Service.{
  Settings, AdviceComputationRequest, ContextStatus, AdviceRouteContext, OnboardAdviceRequest,
  build_advice, build_onboard_advisory,
}
use sombreado_service.Advice.Service.Explained.{
  Explains, Advises, build_advice-Explains, build_onboard_advisory-Advises,
}

-- Eastward.
abbrev segment : ℕ → ℕ → ℕ → RouteSegment
segment n distance cumulative = record {
  id = n;
  sequence = n;
  first = (n * 1000, 0);
  others = (n * 1000 + 1000, 0) ∷ [];
  bearing_degrees = 90000000;
  distance_meters = distance;
  cumulative_distance_meters = cumulative;
}

abbrev route : List RouteSegment
route = segment 1 100000000 100000000 ∷ segment 2 50000000 150000000 ∷ []

abbrev projection : ProjectedRoutePosition
projection = record {
  segment_id = 1;
  segment_sequence = 1;
  lat = 0;
  lng = 1500;
  distance_from_route_meters = 10000000;
  cumulative_distance_meters = 50000000;
}

abbrev project : ℕ × ℕ → List RouteSegment → ProjectedRoutePosition
project location segments = projection

abbrev sun : ℕ → ℕ → ℕ → SunPosition
sun lat lng at = record {
  azimuth = if ltb lng 2000 then 180000000 else 0;
  elevation = pos 40000000;
}

abbrev settings : Settings
settings = record { off_route_threshold_meters = 75000000; nominal_bus_speed_kmh = 18 }

abbrev request : AdviceComputationRequest
request = record {
  route_id = 10;
  route_version_id = 20;
  route_direction_id = 30;
  mode = AdviceMode.onboard;
  horizon = AdviceHorizon.upcoming;
  observed_at = 1000;
  location = some (0, 1500);
  fallback_to_preview = false;
}

abbrev context : AdviceRouteContext
context = record { status = ContextStatus.found; segments = route }

abbrev onboard : OnboardAdviceRequest
onboard = record {
  point = (0, 1500);
  datetime = 1000;
  window_minutes = 15;
  include_remaining = true;
}

-- Eastward with the sun in the south, the sun is on the right.
sun_on_the_right : exposure_direction (sun 0 1500 1000) 90000000 ≡ ExposureDirection.right
unfolding exposure_direction
sun_on_the_right = refl

abbrev pairs : List (SegmentForAdvice × SunPosition)
pairs =
    (segment_for_advice (segment 1 100000000 100000000) 100000000 100000000, sun 0 1500 1000)
    ∷ (segment_for_advice (segment 2 50000000 150000000) 50000000 150000000, sun 0 2500 1000)
    ∷ []

integer_percent_shares-IsDivided_example : IsDivided 1 1 (integer_percent_shares 1 1 1)
integer_percent_shares-IsDivided_example = integer_percent_shares-IsDivided 1 1 1

summarize_advice_horizon-IsSummary_example : IsSummary pairs (summarize_advice_horizon pairs)
summarize_advice_horizon-IsSummary_example = summarize_advice_horizon-IsSummary pairs

segments_after_projection_lem_example :
    All (λ s. 1 ≤ s.sequence) (segments_after_projection route projection (some 70000000))
    × (distance_of (segments_after_projection route projection (some 70000000))
        ≡ min (route_length route - 50000000) 70000000)
segments_after_projection_lem_example =
    segments_after_projection_lem route projection 70000000 (refl, refl, (refl, refl, tt))
      (omega arith) (omega arith) ((λ e. omega arith), ((λ e. omega arith), tt))

segments_from_direction_start_lem_example :
    distance_of (segments_from_direction_start route (some 120000000)) ≡ 120000000
segments_from_direction_start_lem_example = segments_from_direction_start_lem route 120000000

build_advice-Explains_example :
    Explains project sun settings request route (build_advice project sun settings request context)
build_advice-Explains_example = build_advice-Explains project sun settings request context

build_onboard_advisory-Advises_example :
    Advises project sun settings onboard route
      (build_onboard_advisory project sun settings onboard route)
build_onboard_advisory-Advises_example =
    build_onboard_advisory-Advises project sun settings onboard route
