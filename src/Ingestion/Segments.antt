-- ===== src/Ingestion/Segments.antt =====
-- `materialize_route_segments` of src/sombreado/ingestion/segments.py: a line cut into short segments.
-- Distances are numbers of micrometres.
pub mod Numbered
use sombreado_service.Base.{
  ℕ, zero, suc, ◌+◌, ◌-◌, ◌/◌, List, [], ◌∷◌, Bool, true, false, if◌then◌else◌, ltb,
}
use sombreado_service.Ingestion.Domain.{RouteDirection, MaterializedRouteSegment}

-- `_distance_meters`, `_bearing_degrees` and `_interpolate` compute with floats. A fraction is a
-- numerator over a denominator, and `fraction` is the float of the quotient.
pub record Floats : Type 0 where
  pub distance : ℕ × ℕ → ℕ × ℕ → ℕ
  pub bearing : ℕ × ℕ → ℕ × ℕ → ℕ
  pub fraction : ℕ → ℕ → ℕ
  pub interpolate : ℕ × ℕ → ℕ × ℕ → ℕ → ℕ × ℕ

-- `max(1, math.ceil(source_distance / max_segment_length_meters))`
unfoldable pub split_count : ℕ → ℕ → ℕ
split_count max_length d = let n = (d + (max_length - 1)) / max_length in if ltb 1 n then n else 1

module _ (f : Floats) where
  abbrev pub segment : ℕ → ℕ → ℕ × ℕ → ℕ × ℕ → ℕ → ℕ → ℕ → MaterializedRouteSegment
  segment source_index count start end split_index sequence cumulative =
      let fraction_start = f.fraction split_index count in
      let fraction_end = f.fraction (split_index + 1) count in
      let segment_start = f.interpolate start end fraction_start in
      let segment_end = f.interpolate start end fraction_end in
      let distance = f.distance segment_start segment_end in
      record {
        sequence = sequence;
        source_segment_sequence = source_index;
        source_fraction_start = fraction_start;
        source_fraction_end = fraction_end;
        start = segment_start;
        end = segment_end;
        bearing_degrees = f.bearing segment_start segment_end;
        distance_meters = distance;
        cumulative_distance_meters = cumulative + distance;
      }

  -- The inner loop, of which `left` turns remain; the outer one goes on from the next sequence and the
  -- distance so far.
  unfoldable pub pieces :
      ℕ
      → ℕ
      → ℕ × ℕ
      → ℕ × ℕ
      → (ℕ → ℕ → List MaterializedRouteSegment)
      → ℕ
      → ℕ
      → ℕ
      → ℕ
      → List MaterializedRouteSegment
  pieces source_index count start end rest zero split_index sequence cumulative =
      rest sequence cumulative
  pieces source_index count start end rest (suc left) split_index sequence cumulative =
      let s = segment source_index count start end split_index sequence cumulative in
      s
      ∷ pieces source_index count start end rest left (split_index + 1) (sequence + 1)
          s.cumulative_distance_meters

  unfoldable pub materialize_from : ℕ → ℕ → List (ℕ × ℕ) → ℕ → ℕ → List MaterializedRouteSegment
  materialize_from max_length source_index [] sequence cumulative = []
  materialize_from max_length source_index (a ∷ []) sequence cumulative = []
  materialize_from max_length source_index (a ∷ b ∷ points) sequence cumulative =
      let count = split_count max_length (f.distance a b) in
      pieces source_index count a b (materialize_from max_length (source_index + 1) (b ∷ points))
        count 0 sequence cumulative

  unfoldable pub materialize_route_segments : RouteDirection → ℕ → List MaterializedRouteSegment
  materialize_route_segments direction max_length =
      materialize_from max_length 1 direction.coordinates 1 0
