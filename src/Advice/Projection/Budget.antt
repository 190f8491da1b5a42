-- ===== src/Advice/Projection/Budget.antt =====
-- How far the selected segments reach.
use sombreado_service.Base.{
  ℕ, ◌+◌, ◌-◌, ◌≤◌, ◌≡◌, inl, inr, Bool, true, false, Option, some, List, [], ◌∷◌, ltb, All, arith,
  Bool-cases, min, ◌<◌, length, ap, ◌∙◌,
}
use sombreado_service.Advice.{RouteSegment, SegmentForAdvice, ProjectedRoutePosition}
use sombreado_service.Advice.Projection.{
  is_spent, cut, spend, distance_ahead, select_after, segments_after_projection,
  segments_from_direction_start,
}

-- `sum(segment.distance_meters for segment in segments)`
abbrev pub distance_of : List SegmentForAdvice → ℕ
distance_of [] = 0
distance_of (s ∷ ss) = s.distance_meters + distance_of ss

abbrev pub route_length : List RouteSegment → ℕ
route_length [] = 0
route_length (s ∷ ss) = s.distance_meters + route_length ss

select_after-bounded :
    (p : ProjectedRoutePosition) (started : Bool) (budget : ℕ) (segments : List RouteSegment)
    → distance_of (select_after p started (some budget) segments) ≤ budget
unfolding select_after
select_after-bounded p started budget [] = omega arith
select_after-bounded p started budget (s ∷ ss) = ground (
  arith,
  select_after-bounded p started budget ss,
  select_after-bounded p true (budget - min (distance_ahead started p s) budget) ss,
)

select_after-ahead :
    (p : ProjectedRoutePosition) (started : Bool) (budget : Option ℕ) (segments : List RouteSegment)
    → All (λ s. p.segment_sequence ≤ s.sequence) (select_after p started budget segments)
unfolding select_after
select_after-ahead p started budget [] = tt
select_after-ahead p started budget (s ∷ ss) =
    elim (Bool-cases (ltb s.sequence p.segment_sequence)) [
      | inl e ↦ rw e (select_after-ahead p started budget ss)
      | inr e ↦ rw e (elim (Bool-cases (is_spent budget)) [
        | inl q ↦ rw q tt
        | inr q ↦ rw q (
          ground (arith, e),
          select_after-ahead p true (spend budget (cut budget (distance_ahead started p s))) ss,
        )
      ])
    ]

pub segments_after_projection-bounded :
    (segments : List RouteSegment) (p : ProjectedRoutePosition) (budget : ℕ)
    → distance_of (segments_after_projection segments p (some budget)) ≤ budget
unfolding segments_after_projection
segments_after_projection-bounded segments p budget = select_after-bounded p false budget segments

-- A line's segments from the number `n` and the distance `c` on, as they are stored: numbered one by one,
-- and a segment's cumulative distance is that before it and its own.
abbrev pub IsChained : ℕ → ℕ → List RouteSegment → Type 0
IsChained n c [] = Unit
IsChained n c (s ∷ ss) =
    (s.sequence ≡ n)
    × (s.cumulative_distance_meters ≡ c + s.distance_meters)
    × IsChained (n + 1) (c + s.distance_meters) ss

select_after-started :
    (p : ProjectedRoutePosition) (segments : List RouteSegment) (budget n c : ℕ)
    → IsChained n c segments
    → p.segment_sequence ≤ n
    → distance_of (select_after p true (some budget) segments) ≡ min (route_length segments) budget
unfolding select_after
select_after-started p [] budget n c h le = omega arith
select_after-started p (s ∷ ss) budget n c h le = ground (
  arith,
  h.0,
  le,
  select_after-started p ss (budget - min s.distance_meters budget) (n + 1) (c + s.distance_meters)
      h.2 (omega (arith, le)),
)

-- A position on a segment of the line.
abbrev pub IsOn : ProjectedRoutePosition → RouteSegment → Type 0
IsOn p s =
    s.sequence ≡ p.segment_sequence → p.cumulative_distance_meters ≤ s.cumulative_distance_meters

select_after-from :
    (p : ProjectedRoutePosition) (segments : List RouteSegment) (budget n c : ℕ)
    → IsChained n c segments
    → n ≤ p.segment_sequence
    → p.segment_sequence < n + length segments
    → All (IsOn p) segments
    → distance_of (select_after p false (some budget) segments)
      ≡ min (c + route_length segments - p.cumulative_distance_meters) budget
unfolding select_after
select_after-from p [] budget n c h le lt on = absurd (omega (arith, le, lt))
select_after-from p (s ∷ ss) budget n c h le lt on =
    elim (Bool-cases (ltb s.sequence p.segment_sequence)) [
      | inl e ↦ rw e (
          select_after-from p ss budget (n + 1) (c + s.distance_meters) h.2 (ground (arith, e, h.0))
            (omega (arith, lt)) on.1
          ∙ ap (λ k. min (k - p.cumulative_distance_meters) budget) (omega arith))
      | inr e ↦
          let there = on.0 (ground (arith, e, h.0, le)) in
          rw e (
            ground (
              arith,
              h.1,
              there,
              select_after-started p ss
                  (budget
                    - min (s.cumulative_distance_meters - p.cumulative_distance_meters) budget)
                  (n + 1) (c + s.distance_meters) h.2 (ground (arith, e, h.0)),
            ))
    ]

-- For the segments of a line, numbered from 1, and a position on one of them: the segments after the
-- position are not before its segment, and together they are as long as the way from the position to the
-- end of the line, or as the budget where that is shorter.
pub segments_after_projection_lem :
    (segments : List RouteSegment) (p : ProjectedRoutePosition) (budget : ℕ)
    → IsChained 1 0 segments
    → 1 ≤ p.segment_sequence
    → p.segment_sequence ≤ length segments
    → All (IsOn p) segments
    → All
        (λ s. p.segment_sequence ≤ s.sequence)
        (segments_after_projection segments p (some budget))
      × (distance_of (segments_after_projection segments p (some budget))
          ≡ min (route_length segments - p.cumulative_distance_meters) budget)
unfolding segments_after_projection
segments_after_projection_lem segments p budget h le lt on = (
  select_after-ahead p false (some budget) segments,
  select_after-from p segments budget 1 0 h le (omega (arith, lt)) on
      ∙ ap (λ k. min (k - p.cumulative_distance_meters) budget) (omega arith),
)

-- From the start of a direction, the selected segments are as long as the budget, or as the route
-- where that is shorter.
pub segments_from_direction_start_lem :
    (segments : List RouteSegment) (budget : ℕ)
    → distance_of (segments_from_direction_start segments (some budget))
      ≡ min (route_length segments) budget
unfolding segments_from_direction_start
segments_from_direction_start_lem [] budget = omega arith
segments_from_direction_start_lem (s ∷ ss) budget =
    ground (arith, segments_from_direction_start_lem ss (budget - min s.distance_meters budget))
