-- ===== src/Advice/Service.antt =====
-- `AdviceService` of src/sombreado/advice/service.py. What the route service loads, the projection
-- onto the route and the position of the sun are parameters.
pub mod Explained
use sombreado_service.Base.{
  ℕ, ◌+◌, Bool, true, false, Option, none, some, List, [], ◌∷◌, map, ltb, ◌==◌, if◌then◌else◌,
}
use sombreado_service.Store.Errors.{Text}
use sombreado_service.Advice.{
  ExposureDirection, RecommendedSeatArea, SunCondition, AdviceMode, AdviceHorizon, SunPosition,
  HorizonExposureShares, RouteSegment, SegmentForAdvice, ProjectedRoutePosition,
}
use sombreado_service.Advice.Exposure.{
  window_distance_meters, recommended_seat_area_for_horizon, AdviceHorizonSummary,
  summarize_advice_horizon, ExposureWindow, summarize_exposure_window,
}
use sombreado_service.Advice.Projection.{segments_after_projection, segments_from_direction_start}

pub record Settings : Type 0 where
  pub off_route_threshold_meters : ℕ
  pub nominal_bus_speed_kmh : ℕ

-- `location` is (lat, lng).
pub record AdviceComputationRequest : Type 0 where
  pub route_id : Text
  pub route_version_id : Text
  pub route_direction_id : Text
  pub mode : AdviceMode
  pub horizon : AdviceHorizon
  pub observed_at : ℕ
  pub location : Option (ℕ × ℕ)
  pub fallback_to_preview : Bool

pub data ContextStatus : Type 0 where
  found route_not_found route_version_stale route_direction_not_found : ContextStatus

pub record AdviceRouteContext : Type 0 where
  pub status : ContextStatus
  pub segments : List RouteSegment

pub data Source : Type 0 where
  live_location direction_start : Source

pub record AdvicePosition : Type 0 where
  pub lat : ℕ
  pub lng : ℕ
  pub source : Source
  pub distance_from_route_meters : Option ℕ

pub data ReasonCode : Type 0 where
  missing_route_geometry no_advice_for_selected_horizon location_off_route : ReasonCode

pub data ErrorCode : Type 0 where
  validation_failed route_not_found route_version_stale route_direction_not_found : ErrorCode

pub record AdviceSuccess : Type 0 where
  pub request : AdviceComputationRequest
  pub direct_sun_exposure : ExposureDirection
  pub recommended_seat_area : RecommendedSeatArea
  pub sun_condition : SunCondition
  pub exposure_shares : HorizonExposureShares
  pub horizon_flip : Bool
  pub position : AdvicePosition

-- A response carries the request's mode, horizon, ids and time, so it carries the request; `fails`
-- is a raised `ServiceError`.
pub data AdviceResponse : Type 0 where
  succeeds : AdviceSuccess → AdviceResponse
  withholds : AdviceComputationRequest → ReasonCode → AdviceResponse
  fails : ErrorCode → AdviceResponse

-- `_max_distance_for_horizon`
unfoldable pub max_distance_for_horizon : AdviceHorizon → ℕ → Option ℕ
max_distance_for_horizon AdviceHorizon.upcoming nominal_bus_speed_kmh =
    some (window_distance_meters nominal_bus_speed_kmh 15)
max_distance_for_horizon AdviceHorizon.remaining_route nominal_bus_speed_kmh = none

-- `_direction_start_position`, of a route with a first segment.
abbrev pub direction_start_position : RouteSegment → AdvicePosition
direction_start_position s = record {
  lat = s.first.1;
  lng = s.first.0;
  source = direction_start;
  distance_from_route_meters = none;
}

abbrev pub live_position : ProjectedRoutePosition → AdvicePosition
live_position p = record {
  lat = p.lat;
  lng = p.lng;
  source = live_location;
  distance_from_route_meters = some p.distance_from_route_meters;
}

-- `sum(segment.distance_meters for segment in segments)`
abbrev pub sum_distances : List SegmentForAdvice → ℕ
sum_distances [] = 0
sum_distances (s ∷ ss) = s.distance_meters + sum_distances ss

abbrev pub preview_of : AdviceComputationRequest → AdviceComputationRequest
preview_of request = record request { mode = AdviceMode.preview }

-- `window_minutes` and the rest of an onboard request; `point` is (lat, lng).
pub record OnboardAdviceRequest : Type 0 where
  pub point : ℕ × ℕ
  pub datetime : ℕ
  pub window_minutes : ℕ
  pub include_remaining : Bool

-- The reasons of a withheld advisory, and an advisory.
pub data OnboardAdviceResponse : Type 0 where
  no_segments : OnboardAdviceResponse
  off_route : ProjectedRoutePosition → OnboardAdviceResponse
  advisory : ProjectedRoutePosition → ExposureWindow → Option ExposureWindow → OnboardAdviceResponse

module _ (project : ℕ × ℕ → List RouteSegment → ProjectedRoutePosition)
    (sun_position : ℕ → ℕ → ℕ → SunPosition) (settings : Settings) where
  -- The segments with the sun at their midpoints.
  abbrev pub with_sun : ℕ → List SegmentForAdvice → List (SegmentForAdvice × SunPosition)
  with_sun at segments = map (λ s. (s, sun_position s.midpoint_lat s.midpoint_lng at)) segments

  unfoldable pub build_advice_success :
      AdviceComputationRequest → List SegmentForAdvice → AdvicePosition → AdviceSuccess
  build_advice_success request segments position =
      let summary = summarize_advice_horizon (with_sun request.observed_at segments) in
      record {
        request = request;
        direct_sun_exposure = summary.direct_sun_exposure;
        recommended_seat_area = recommended_seat_area_for_horizon summary;
        sun_condition = summary.sun_condition;
        exposure_shares = summary.exposure_shares;
        horizon_flip = summary.horizon_flip;
        position = position;
      }

  -- Advice on the selected segments, if they have a distance.
  unfoldable pub advise :
      AdviceComputationRequest → List SegmentForAdvice → AdvicePosition → AdviceResponse
  advise request segments position =
      if sum_distances segments == 0
      then withholds request no_advice_for_selected_horizon
      else succeeds (build_advice_success request segments position)

  abbrev pub horizon_of : AdviceComputationRequest → Option ℕ
  horizon_of request = max_distance_for_horizon request.horizon settings.nominal_bus_speed_kmh

  unfoldable pub advise_preview :
      AdviceComputationRequest → RouteSegment → List RouteSegment → AdviceResponse
  advise_preview request s ss =
      advise request (segments_from_direction_start (s ∷ ss) (horizon_of request))
        (direction_start_position s)

  unfoldable pub advise_projected :
      AdviceComputationRequest
      → RouteSegment
      → List RouteSegment
      → ProjectedRoutePosition
      → AdviceResponse
  advise_projected request s ss projection =
      if ltb settings.off_route_threshold_meters projection.distance_from_route_meters
      then (if request.fallback_to_preview
          then advise_preview (preview_of request) s ss
          else withholds request location_off_route)
      else advise request (segments_after_projection (s ∷ ss) projection (horizon_of request))
          (live_position projection)

  abbrev pub advise_onboard :
      AdviceComputationRequest → RouteSegment → List RouteSegment → Option (ℕ × ℕ) → AdviceResponse
  advise_onboard request s ss none = fails validation_failed
  advise_onboard request s ss (some location) =
      advise_projected request s ss (project location (s ∷ ss))

  abbrev pub advise_mode :
      AdviceComputationRequest → RouteSegment → List RouteSegment → AdviceMode → AdviceResponse
  advise_mode request s ss AdviceMode.onboard = advise_onboard request s ss request.location
  advise_mode request s ss AdviceMode.preview = advise_preview request s ss
  advise_mode request s ss AdviceMode.unavailable = fails validation_failed

  abbrev pub advise_segments :
      AdviceComputationRequest → AdviceMode → List RouteSegment → AdviceResponse
  advise_segments request mode [] = withholds request missing_route_geometry
  advise_segments request mode (s ∷ ss) = advise_mode request s ss mode

  -- `_ADVICE_CONTEXT_ERRORS`
  abbrev pub advise_context :
      AdviceComputationRequest → AdviceMode → ContextStatus → List RouteSegment → AdviceResponse
  advise_context request mode ContextStatus.found segments = advise_segments request mode segments
  advise_context request mode ContextStatus.route_not_found segments =
      fails ErrorCode.route_not_found
  advise_context request mode ContextStatus.route_version_stale segments =
      fails ErrorCode.route_version_stale
  advise_context request mode ContextStatus.route_direction_not_found segments =
      fails ErrorCode.route_direction_not_found

  -- The mode is checked before the context is loaded.
  abbrev pub advise_request :
      AdviceComputationRequest → AdviceMode → AdviceRouteContext → AdviceResponse
  advise_request request AdviceMode.unavailable context = fails validation_failed
  advise_request request AdviceMode.onboard context =
      advise_context request AdviceMode.onboard context.status context.segments
  advise_request request AdviceMode.preview context =
      advise_context request AdviceMode.preview context.status context.segments

  unfoldable pub build_advice : AdviceComputationRequest → AdviceRouteContext → AdviceResponse
  build_advice request context = advise_request request request.mode context

  abbrev pub advisory_of :
      OnboardAdviceRequest → List RouteSegment → ProjectedRoutePosition → OnboardAdviceResponse
  advisory_of request segments projection =
      if ltb settings.off_route_threshold_meters projection.distance_from_route_meters
      then off_route projection
      else advisory projection
          (summarize_exposure_window (
            with_sun request.datetime (
              segments_after_projection segments projection (
                some
                  (window_distance_meters settings.nominal_bus_speed_kmh request.window_minutes)))))
          (if request.include_remaining
            then some (
                summarize_exposure_window
                  (with_sun request.datetime (segments_after_projection segments projection none)))
            else none)

  unfoldable pub build_onboard_advisory :
      OnboardAdviceRequest → List RouteSegment → OnboardAdviceResponse
  build_onboard_advisory request [] = no_segments
  build_onboard_advisory request (s ∷ ss) =
      advisory_of request (s ∷ ss) (project request.point (s ∷ ss))
