-- ===== src/Advice/Projection.antt =====
-- The segments ahead: `segments_after_projection` of src/sombreado/advice/projection.py and
-- `_segments_from_direction_start` of src/sombreado/advice/service.py. The projection itself is
-- floating-point geometry, and a parameter where it is used.
pub mod Budget
use sombreado_service.Base.{
  ℕ, ◌+◌, ◌-◌, Bool, true, false, Option, none, some, List, [], ◌∷◌, ltb, ◌==◌, if◌then◌else◌, min,
}
use sombreado_service.Advice.{RouteSegment, SegmentForAdvice, ProjectedRoutePosition, midpoint}

-- `remaining_budget <= 0`
abbrev pub is_spent : Option ℕ → Bool
is_spent none = false
is_spent (some budget) = budget == 0

-- `min(distance, remaining_budget)`
abbrev pub cut : Option ℕ → ℕ → ℕ
cut none distance = distance
cut (some budget) distance = min distance budget

-- `remaining_budget -= distance`
abbrev pub spend : Option ℕ → ℕ → Option ℕ
spend none distance = none
spend (some budget) distance = some (budget - distance)

abbrev pub segment_for_advice : RouteSegment → ℕ → ℕ → SegmentForAdvice
segment_for_advice s distance cumulative = record {
  segment_id = s.id;
  sequence = s.sequence;
  midpoint_lat = (midpoint s).1;
  midpoint_lng = (midpoint s).0;
  bearing_degrees = s.bearing_degrees;
  distance_meters = distance;
  cumulative_distance_meters = cumulative;
}

-- The distance of a segment: for the first one what lies behind the position, `max(0.0, ...)`.
abbrev pub distance_ahead : Bool → ProjectedRoutePosition → RouteSegment → ℕ
distance_ahead true p s = s.distance_meters
distance_ahead false p s = s.cumulative_distance_meters - p.cumulative_distance_meters

abbrev pub cumulative_ahead : Bool → ProjectedRoutePosition → RouteSegment → ℕ
cumulative_ahead true p s = s.cumulative_distance_meters
cumulative_ahead false p s = p.cumulative_distance_meters + distance_ahead false p s

-- The loop, with `started` and `remaining_budget`. The branch `if not started` behind the budget is
-- left out: `started` is true there.
unfoldable pub select_after :
    ProjectedRoutePosition → Bool → Option ℕ → List RouteSegment → List SegmentForAdvice
select_after p started budget [] = []
select_after p started budget (s ∷ ss) =
    let distance = cut budget (distance_ahead started p s) in
    let skipped = select_after p started budget ss in
    let rest = select_after p true (spend budget distance) ss in
    if ltb s.sequence p.segment_sequence
    then skipped
    else if is_spent budget
    then []
    else segment_for_advice s distance (cumulative_ahead started p s) ∷ rest

unfoldable pub segments_after_projection :
    List RouteSegment → ProjectedRoutePosition → Option ℕ → List SegmentForAdvice
segments_after_projection segments projection max_distance_meters =
    select_after projection false max_distance_meters segments

unfoldable pub segments_from_direction_start : List RouteSegment → Option ℕ → List SegmentForAdvice
segments_from_direction_start [] budget = []
segments_from_direction_start (s ∷ ss) budget =
    let distance = cut budget s.distance_meters in
    let rest = segments_from_direction_start ss (spend budget distance) in
    if is_spent budget
    then []
    else segment_for_advice s distance s.cumulative_distance_meters ∷ rest
