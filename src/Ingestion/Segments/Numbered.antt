-- ===== src/Ingestion/Segments/Numbered.antt =====
-- How src/sombreado/ingestion/segments.py numbers and measures the segments of a line.
use sombreado_service.Base.{
  ℕ, zero, suc, ◌+◌, ◌-◌, ◌*◌, ◌/◌, ◌≤◌, ◌<◌, List, [], ◌∷◌, ◌++◌, ◌≡◌, refl, ap, arith, ltb,
  Bool-cases, inl, inr,
}
use mathlib.Core.Logic.{◌↔◌}
use native.Mathlib.Nat.{div-lt_iff_lt-mul}
use sombreado_service.Ingestion.Domain.{RouteDirection, MaterializedRouteSegment}
use sombreado_service.Ingestion.Segments.{
  Floats, segment, split_count, pieces, materialize_from, materialize_route_segments,
}

-- The smallest number of pieces, at least one, so that a piece of the distance is no longer than allowed.
abbrev pub IsFewest : ℕ → ℕ → ℕ → Type 0
IsFewest max_length d n =
    (1 ≤ n) × (d ≤ n * max_length) × ((k : ℕ) → 1 ≤ k → d ≤ k * max_length → n ≤ k)

-- The ceiling of a quotient is at most `k` just where `k` times the divisor is enough.
ceil-le : (m d k : ℕ) → 0 < m → ((d + (m - 1)) / m < k + 1) ↔ (d ≤ k * m)
ceil-le m d k pos =
    let h = div-lt_iff_lt-mul {k = m} {x = d + (m - 1)} {y = k + 1} pos in
    (λ e. omega (arith, h.0 e, pos), λ e. h.1 (omega (arith, e, pos)))

split_count-IsFewest : (m d : ℕ) → 0 < m → IsFewest m d (split_count m d)
unfolding split_count
split_count-IsFewest m d pos =
    let q = (d + (m - 1)) / m in
    elim (Bool-cases (ltb 1 q)) [
      | inl e ↦ rw e (
        ground (arith, e),
        (ceil-le m d q pos).0 (omega arith),
        λ k _ h. omega (arith, (ceil-le m d k pos).1 h),
      )
      | inr e ↦ rw e (omega arith, (ceil-le m d 1 pos).0 (ground (arith, e)), λ k p h. p)
    ]

module _ (f : Floats) where
  -- The sequences count up by one, each segment measures what lies between its ends, and the distance
  -- at a segment is that before it and its own.
  abbrev pub IsNumbered : ℕ → ℕ → List MaterializedRouteSegment → Type 0
  IsNumbered sequence cumulative [] = Unit
  IsNumbered sequence cumulative (s ∷ ss) =
      (s.sequence ≡ sequence)
      × (s.distance_meters ≡ f.distance s.start s.end)
      × (s.bearing_degrees ≡ f.bearing s.start s.end)
      × (s.cumulative_distance_meters ≡ cumulative + s.distance_meters)
      × IsNumbered (sequence + 1) s.cumulative_distance_meters ss

  -- The pieces from the i-th of `count` on, between two points of the line: each begins at the fraction and
  -- the place where the one before it ends, and the last one ends at `count` over `count`.
  abbrev pub ArePieces :
      ℕ → ℕ × ℕ → ℕ × ℕ → ℕ → ℕ → ℕ → ℕ × ℕ → List MaterializedRouteSegment → Type 0
  ArePieces source a b count i from at [] = i ≡ count
  ArePieces source a b count i from at (s ∷ ss) =
      (s.source_segment_sequence ≡ source)
      × (s.source_fraction_start ≡ from)
      × (s.start ≡ at)
      × (s.source_fraction_end ≡ f.fraction (i + 1) count)
      × (s.end ≡ f.interpolate a b s.source_fraction_end)
      × ArePieces source a b count (i + 1) s.source_fraction_end s.end ss

  -- Between each two successive points there are as few pieces as are needed, and all of them.
  abbrev pub IsCut : ℕ → ℕ → List (ℕ × ℕ) → List MaterializedRouteSegment → Type 0
  IsCut max_length source [] ss = ss ≡ []
  IsCut max_length source (a ∷ []) ss = ss ≡ []
  IsCut max_length source (a ∷ b ∷ points) ss =
      (count : ℕ) × IsFewest max_length (f.distance a b) count
      × (front : List MaterializedRouteSegment) × (back : List MaterializedRouteSegment) × (ss
          ≡ front ++ back)
      × ArePieces source a b count 0 (f.fraction 0 count) (f.interpolate a b (f.fraction 0 count))
          front
      × IsCut max_length (source + 1) (b ∷ points) back

  pieces-IsNumbered :
      (source count : ℕ) (a b : ℕ × ℕ) (rest : ℕ → ℕ → List MaterializedRouteSegment)
      → ((n d : ℕ) → IsNumbered n d (rest n d))
      → (left i n d : ℕ) → IsNumbered n d (pieces f source count a b rest left i n d)
  unfolding pieces
  pieces-IsNumbered source count a b rest h zero i n d = h n d
  pieces-IsNumbered source count a b rest h (suc left) i n d =
      (refl, refl, refl, refl, pieces-IsNumbered source count a b rest h left (i + 1) (n + 1) _)

  pieces-ArePieces :
      (source count : ℕ) (a b : ℕ × ℕ) (rest : ℕ → ℕ → List MaterializedRouteSegment)
      (left i n d : ℕ)
      → i + left ≡ count
      → (front : List MaterializedRouteSegment) × (n' : ℕ) × (d' : ℕ) × (pieces f source count a b
            rest left i n d
          ≡ front ++ rest n' d')
        × ArePieces source a b count i
            (f.fraction i count)
            (f.interpolate a b (f.fraction i count))
            front
  unfolding pieces
  pieces-ArePieces source count a b rest zero i n d e = ([], n, d, refl, omega (arith, e))
  pieces-ArePieces source count a b rest (suc left) i n d e =
      let s = segment f source count a b i n d in
      let h =
        pieces-ArePieces source count a b rest left (i + 1) (n + 1) s.cumulative_distance_meters
          (omega (arith, e)) in
      (s ∷ h.0, h.1, h.2, ap (λ ss. s ∷ ss) h.3, (refl, refl, refl, refl, refl, h.4))

  materialize_from-IsNumbered :
      (m source : ℕ) (points : List (ℕ × ℕ)) (n d : ℕ)
      → IsNumbered n d (materialize_from f m source points n d)
  unfolding materialize_from
  materialize_from-IsNumbered m source [] n d = tt
  materialize_from-IsNumbered m source (a ∷ []) n d = tt
  materialize_from-IsNumbered m source (a ∷ b ∷ points) n d =
      pieces-IsNumbered source _ a b _ (materialize_from-IsNumbered m (source + 1) (b ∷ points)) _ 0
        n d

  materialize_from-IsCut :
      (m source : ℕ) (points : List (ℕ × ℕ)) (n d : ℕ)
      → 0 < m
      → IsCut m source points (materialize_from f m source points n d)
  unfolding materialize_from
  materialize_from-IsCut m source [] n d pos = refl
  materialize_from-IsCut m source (a ∷ []) n d pos = refl
  materialize_from-IsCut m source (a ∷ b ∷ points) n d pos =
      let count = split_count m (f.distance a b) in
      let rest = materialize_from f m (source + 1) (b ∷ points) in
      let h = pieces-ArePieces source count a b rest count 0 n d (omega arith) in
      (
        count,
        split_count-IsFewest m (f.distance a b) pos,
        h.0,
        rest h.1 h.2,
        h.3,
        h.4,
        materialize_from-IsCut m (source + 1) (b ∷ points) h.1 h.2 pos,
      )

  -- The segments of a direction are numbered from 1, each measures what lies between its ends, and its
  -- cumulative distance is the sum of the distances up to it. Between each two successive points of the line
  -- stand the pieces of it, as few as keep each below the greatest length, but at least one; they are equal
  -- fractions, and each begins where the one before it ends.
  pub materialize_route_segments-IsNumbered :
      (r : RouteDirection) (m : ℕ)
      → 0 < m
      → IsNumbered 1 0 (materialize_route_segments f r m)
        × IsCut m 1 r.coordinates (materialize_route_segments f r m)
  unfolding materialize_route_segments
  materialize_route_segments-IsNumbered r m pos = (
    materialize_from-IsNumbered m 1 r.coordinates 1 0,
    materialize_from-IsCut m 1 r.coordinates 1 0 pos,
  )
