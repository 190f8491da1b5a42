-- ===== src/Advice/Service/Explained.antt =====
-- What a response of the advice service says.
use sombreado_service.Base.{
  ℕ, ◌+◌, ◌≤◌, ◌<◌, ◌≡◌, refl, sym, ap, ◌∙◌, inl, inr, Bool, true, false, Option, none, some, List,
  [], ◌∷◌, ltb, ◌==◌, arith, Bool-cases, if◌then◌else◌,
}
use mathlib.Core.Path.{subst}
use mathlib.Core.Option.{some-injective}
use sombreado_service.Advice.{
  AdviceMode, RecommendedSeatArea, SunPosition, RouteSegment, SegmentForAdvice,
  ProjectedRoutePosition,
}
use sombreado_service.Advice.Exposure.{
  window_distance_meters, recommended_seat_area_for_horizon, summarize_exposure_window,
}
use sombreado_service.Advice.Exposure.Summary.{
  summarize_advice_horizon-IsSummary, length_of, total_of-breakdown,
}
use sombreado_service.Advice.Projection.{segments_after_projection}
use sombreado_service.Advice.Projection.Budget.{distance_of, segments_after_projection-bounded}
use sombreado_service.Advice.Service.{
  Settings, AdviceComputationRequest, ContextStatus, AdviceRouteContext, live_location,
  AdvicePosition, missing_route_geometry, no_advice_for_selected_horizon, location_off_route,
  AdviceSuccess, AdviceResponse, succeeds, withholds, fails, direction_start_position,
  live_position, sum_distances, preview_of, OnboardAdviceRequest, OnboardAdviceResponse,
  no_segments, off_route, advisory, with_sun, build_advice_success, advise, advise_preview,
  advise_projected, advise_mode, advise_onboard, advise_segments, advise_context, advise_request,
  build_advice, build_onboard_advisory, horizon_of,
}
use sombreado_service.Advice.Projection.{segments_from_direction_start}

module _ (project : ℕ × ℕ → List RouteSegment → ProjectedRoutePosition)
    (sun_position : ℕ → ℕ → ℕ → SunPosition) (settings : Settings) where
  -- The distance of the request's location from the route.
  abbrev pub distance_from : ℕ × ℕ → List RouteSegment → ℕ
  distance_from location segments = (project location segments).distance_from_route_meters

  -- An advice: shares of 100 percent, the neutral seat where the sun changes sides, and a live
  -- position only where the location is near the route.
  pub record IsExplained (request : AdviceComputationRequest) (segments : List RouteSegment)
      (s : AdviceSuccess) : Type 0 where
    pub shares : s.exposure_shares.left + s.exposure_shares.right + s.exposure_shares.shade ≡ 100
    pub neutral : s.horizon_flip ≡ true → s.recommended_seat_area ≡ RecommendedSeatArea.neutral
    pub near :
        s.position.source ≡ live_location
        → (location : ℕ × ℕ) → request.location ≡ some location
        → distance_from location segments ≤ settings.off_route_threshold_meters

  -- A refusal for being off the route: the location is, and no preview was asked for.
  abbrev pub Explains : AdviceComputationRequest → List RouteSegment → AdviceResponse → Type 0
  Explains request segments (succeeds s) = IsExplained request segments s
  Explains request segments (withholds r location_off_route) =
      (request.fallback_to_preview ≡ false)
      × ((location : ℕ × ℕ)
          → request.location ≡ some location
          → settings.off_route_threshold_meters < distance_from location segments)
  Explains request segments (withholds r missing_route_geometry) = segments ≡ []
  Explains request segments (withholds r no_advice_for_selected_horizon) = Unit
  Explains request segments (fails e) = Unit

  module _ (request : AdviceComputationRequest) (segments : List RouteSegment) where
    advise-Explains :
        (r : AdviceComputationRequest) (selected : List SegmentForAdvice)
        (position : AdvicePosition)
        → (position.source ≡ live_location
            → (location : ℕ × ℕ) → request.location ≡ some location
            → distance_from location segments ≤ settings.off_route_threshold_meters)
        → Explains request segments (advise project sun_position settings r selected position)
    unfolding advise build_advice_success recommended_seat_area_for_horizon
    advise-Explains r selected position near = elim (Bool-cases (sum_distances selected == 0)) [
      | inl e ↦ rw e tt
      | inr e ↦ rw e (record {
        shares =
            (summarize_advice_horizon-IsSummary
              (with_sun project sun_position settings r.observed_at selected)).shares;
        neutral = λ f. rw f refl;
        near = near;
      })
    ]

    advise_preview-Explains :
        (r : AdviceComputationRequest) (s : RouteSegment) (ss : List RouteSegment)
        → Explains request segments (advise_preview project sun_position settings r s ss)
    unfolding advise_preview
    advise_preview-Explains r s ss =
        advise-Explains r
          (segments_from_direction_start (s ∷ ss) (horizon_of project sun_position settings r))
          (direction_start_position s) (λ e. cc e)

  module _ (request : AdviceComputationRequest) (s : RouteSegment) (ss : List RouteSegment) where
    advise_projected-Explains :
        (location : ℕ × ℕ)
        → request.location ≡ some location
        → Explains request (s ∷ ss) (
            advise_projected project sun_position settings request s ss (project location (s ∷ ss)))
    unfolding advise_projected
    advise_projected-Explains location e =
        elim (Bool-cases
          (ltb settings.off_route_threshold_meters (distance_from location (s ∷ ss)))) [
            | inl p ↦ rw p (by_fallback request.fallback_to_preview refl (ground (arith, p)))
            | inr p ↦ rw p (
                advise-Explains request (s ∷ ss) request
                  (segments_after_projection (s ∷ ss) (project location (s ∷ ss))
                    (horizon_of project sun_position settings request))
                  (live_position (project location (s ∷ ss)))
                  (λ _ l h.
                    subst (λ x. distance_from x (s ∷ ss) ≤ settings.off_route_threshold_meters)
                      (same_location l h) (ground (arith, p))))
          ]
      where
        same_location : (l : ℕ × ℕ) → request.location ≡ some l → location ≡ l
        same_location l h = some-injective _ _ (sym e ∙ h)

        by_fallback :
            (b : Bool)
            → request.fallback_to_preview ≡ b
            → settings.off_route_threshold_meters < distance_from location (s ∷ ss)
            → Explains request (s ∷ ss) (
                if b
                then advise_preview project sun_position settings (preview_of request) s ss
                else withholds request location_off_route)
        by_fallback true q far = advise_preview-Explains request (s ∷ ss) (preview_of request) s ss
        by_fallback false q far = (
          q,
          λ l h.
              subst (λ x. settings.off_route_threshold_meters < distance_from x (s ∷ ss))
                (same_location l h) far,
        )

    advise_onboard-Explains :
        (o : Option (ℕ × ℕ))
        → request.location ≡ o
        → Explains request (s ∷ ss) (advise_onboard project sun_position settings request s ss o)
    advise_onboard-Explains none e = tt
    advise_onboard-Explains (some location) e = advise_projected-Explains location e

    advise_mode-Explains :
        (mode : AdviceMode)
        → Explains request (s ∷ ss) (advise_mode project sun_position settings request s ss mode)
    advise_mode-Explains AdviceMode.onboard = advise_onboard-Explains request.location refl
    advise_mode-Explains AdviceMode.preview = advise_preview-Explains request (s ∷ ss) request s ss
    advise_mode-Explains AdviceMode.unavailable = tt

  -- Every advice has shares of 100 percent, the neutral seat where the sun changes sides, and a live
  -- position only for a location near the route; `locationOffRoute` is answered only where the
  -- location is farther than the threshold and no preview was asked for; and `missingRouteGeometry`
  -- only where the direction has no segments.
  pub build_advice-Explains :
      (request : AdviceComputationRequest) (context : AdviceRouteContext)
      → Explains request context.segments
          (build_advice project sun_position settings request context)
  unfolding build_advice
  build_advice-Explains request context = go request.mode context.status context.segments
    where
      segments_given :
          (mode : AdviceMode) (segments : List RouteSegment)
          → Explains request segments
              (advise_segments project sun_position settings request mode segments)
      segments_given mode [] = refl
      segments_given mode (s ∷ ss) = advise_mode-Explains request s ss mode

      in_context :
          (mode : AdviceMode) (status : ContextStatus) (segments : List RouteSegment)
          → Explains request segments
              (advise_context project sun_position settings request mode status segments)
      in_context mode ContextStatus.found segments = segments_given mode segments
      in_context mode ContextStatus.route_not_found segments = tt
      in_context mode ContextStatus.route_version_stale segments = tt
      in_context mode ContextStatus.route_direction_not_found segments = tt

      go :
          (mode : AdviceMode) (status : ContextStatus) (segments : List RouteSegment)
          → Explains request segments (
              advise_request project sun_position settings request mode
                (record { status = status; segments = segments }))
      go AdviceMode.unavailable status segments = tt
      go AdviceMode.onboard status segments = in_context AdviceMode.onboard status segments
      go AdviceMode.preview status segments = in_context AdviceMode.preview status segments

  -- An advisory is for a point near the route, and its window is no longer than the distance that the
  -- bus goes in it; a refusal as off the route is for a point that is not near.
  abbrev pub Advises : OnboardAdviceRequest → List RouteSegment → OnboardAdviceResponse → Type 0
  Advises request segments no_segments = segments ≡ []
  Advises request segments (off_route p) =
      settings.off_route_threshold_meters < distance_from request.point segments
  Advises request segments (advisory p window remaining) =
      (distance_from request.point segments ≤ settings.off_route_threshold_meters)
      × (window.total_distance_meters
          ≤ window_distance_meters settings.nominal_bus_speed_kmh request.window_minutes)

  length_of-with_sun :
      (at : ℕ) (segments : List SegmentForAdvice)
      → length_of (with_sun project sun_position settings at segments) ≡ distance_of segments
  length_of-with_sun at [] = refl
  length_of-with_sun at (s ∷ ss) = ap (λ n. s.distance_meters + n) (length_of-with_sun at ss)

  -- An onboard advisory is given exactly near the route, for a window no longer than the bus goes in
  -- it; without segments, or off the route, it is withheld.
  pub build_onboard_advisory-Advises :
      (request : OnboardAdviceRequest) (segments : List RouteSegment)
      → Advises request segments
          (build_onboard_advisory project sun_position settings request segments)
  unfolding build_onboard_advisory summarize_exposure_window
  build_onboard_advisory-Advises request [] = refl
  build_onboard_advisory-Advises request (s ∷ ss) =
      elim (Bool-cases
        (ltb settings.off_route_threshold_meters (distance_from request.point (s ∷ ss)))) [
          | inl p ↦ rw p (ground (arith, p))
          | inr p ↦ rw p (ground (arith, p), bounded)
        ]
    where
      budget : ℕ
      budget = window_distance_meters settings.nominal_bus_speed_kmh request.window_minutes

      ahead : List SegmentForAdvice
      ahead = segments_after_projection (s ∷ ss) (project request.point (s ∷ ss)) (some budget)

      bounded :
          (summarize_exposure_window
            (with_sun project sun_position settings request.datetime ahead)).total_distance_meters
          ≤ budget
      bounded = omega (
        arith,
        total_of-breakdown (with_sun project sun_position settings request.datetime ahead),
        length_of-with_sun request.datetime ahead,
        segments_after_projection-bounded (s ∷ ss) (project request.point (s ∷ ss)) budget,
      )
