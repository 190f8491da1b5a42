-- ===== src/Ingestion/Canonical/Coherent.antt =====
-- The rows that src/sombreado/ingestion/canonical.py makes refer to each other only.
use sombreado_service.Base.{
  ℕ, ◌+◌, Bool, true, ◌&&◌, Option, none, some, List, [], ◌∷◌, ◌++◌, find?, any, All, All-append,
  All-weaken, length, ◌==◌, ◌≡◌, refl, arith, Bool-cases, inl, inr,
}
use sombreado_service.Store.Errors.{Text}
use sombreado_service.Store.Schema.{RouteVersionRecord}
use sombreado_service.Store.Writes.{CanonicalRows, DirectionRow}
use sombreado_service.Ingestion.Domain.{
  RouteDirection, MaterializedRouteSegment, ServiceDirection, ServiceDirectionMatch,
}
use sombreado_service.Ingestion.Segments.{materialize_route_segments}
use sombreado_service.Ingestion.Directions.{DirectionName, last_match}
use sombreado_service.Ingestion.Canonical.{
  Python, id_of, linked_direction_id, link_of, segment_rows, direction_row, direction_rows,
  service_rows, max_segment_length_meters,
}

abbrev pub is_direction_of : Text → Text → DirectionRow → Bool
is_direction_of version id d = d.id == id && d.route_version_id == version

-- A row of the version may name the direction, which is one of the version too.
abbrev pub IsLink : List DirectionRow → Text → Option Text → Type 0
IsLink ds version none = Unit
IsLink ds version (some id) = any (is_direction_of version id) ds ≡ true

abbrev pub IsVersion : List RouteVersionRecord → Text → Type 0
IsVersion vs version = any (λ v. v.id == version) vs ≡ true

pub record IsCoherent (rows : CanonicalRows) : Type 0 where
  pub versions : All (λ v. any (λ r. r.id == v.route_id) rows.routes ≡ true) rows.route_versions
  pub directions : All (λ d. IsVersion rows.route_versions d.route_version_id) rows.route_directions
  pub segments :
      All
        (λ s. IsLink rows.route_directions s.route_version_id (some s.route_direction_id))
        rows.route_segments
  pub services :
      All
        (λ s.
          IsVersion rows.route_versions s.route_version_id
          × IsLink rows.route_directions s.route_version_id s.route_direction_id)
        rows.service_directions

module _ {A : Type 0} where
  pub any-left : (p : A → Bool) (xs ys : List A) → any p xs ≡ true → any p (xs ++ ys) ≡ true
  any-left p [] ys h = cc h
  any-left p (x ∷ xs) ys h = ground (arith, any-left p xs ys)

  pub any-right : (p : A → Bool) (xs ys : List A) → any p ys ≡ true → any p (xs ++ ys) ≡ true
  any-right p [] ys h = h
  any-right p (x ∷ xs) ys h = ground (arith, any-right p xs ys h)

pub IsLink-left :
    (ds es : List DirectionRow) (v : Text) (o : Option Text) → IsLink ds v o → IsLink (ds ++ es) v o
IsLink-left ds es v none h = tt
IsLink-left ds es v (some id) h = any-left (is_direction_of v id) ds es h

pub IsLink-right :
    (ds es : List DirectionRow) (v : Text) (o : Option Text) → IsLink es v o → IsLink (ds ++ es) v o
IsLink-right ds es v none h = tt
IsLink-right ds es v (some id) h = any-right (is_direction_of v id) ds es h

-- A lookup among directions of one version finds one of that version.
pub IsLink-find? :
    (v : Text) (p : DirectionRow → Bool) (ds : List DirectionRow)
    → All (λ d. d.route_version_id ≡ v) ds
    → IsLink ds v (id_of (find? p ds))
IsLink-find? v p [] h = tt
IsLink-find? v p (d ∷ ds) h = elim (Bool-cases (p d)) [
  | inl e ↦ rw e (ground (arith, h.0))
  | inr e ↦ rw e (IsLink-right (d ∷ []) ds v (id_of (find? p ds)) (IsLink-find? v p ds h.1))
]

pub IsLink-link_of :
    (v : Text) (ds : List DirectionRow) (m : Option ServiceDirectionMatch)
    → All (λ d. d.route_version_id ≡ v) ds
    → IsLink ds v (link_of ds m)
IsLink-link_of v ds none h = tt
IsLink-link_of v ds (some m) h = linked m.route_direction_sequence
  where
    linked : (o : Option ℕ) → IsLink ds v (linked_direction_id ds o)
    linked none = tt
    linked (some i) = IsLink-find? v (λ d. d.sequence == i) ds h

module _ (py : Python) where
  pub segment_rows-IsLink :
      (v k : Text) (ds : List DirectionRow) (n : ℕ) (ss : List MaterializedRouteSegment)
      → IsLink ds v (some k)
      → All
          (λ s. IsLink ds s.route_version_id (some s.route_direction_id))
          (segment_rows py v k n ss)
  unfolding segment_rows
  segment_rows-IsLink v k ds n [] h = tt
  segment_rows-IsLink v k ds n (s ∷ ss) h = (h, segment_rows-IsLink v k ds (n + 1) ss h)

  pub direction_rows-of :
      (v : Text) (i n : ℕ) (ps : List (RouteDirection × DirectionName))
      → All (λ d. d.route_version_id ≡ v) (direction_rows py v i n ps).directions
  unfolding direction_rows
  direction_rows-of v i n [] = tt
  direction_rows-of v i n (p ∷ ps) = (refl, direction_rows-of v (i + 1) _ ps)

  pub direction_rows-IsLink :
      (v : Text) (i n : ℕ) (ps : List (RouteDirection × DirectionName))
      → All
          (λ s.
            IsLink
              (direction_rows py v i n ps).directions
              s.route_version_id
              (some s.route_direction_id))
          (direction_rows py v i n ps).segments
  unfolding direction_rows
  direction_rows-IsLink v i n [] = tt
  direction_rows-IsLink v i n (p ∷ ps) =
      let segments = materialize_route_segments py.floats p.0 max_segment_length_meters in
      let rest = direction_rows py v (i + 1) (n + 1 + length segments) ps in
      let row = direction_row py v i n p.0 p.1 in
      All-append _ (segment_rows py v (py.fresh n) (n + 1) segments) rest.segments
        (segment_rows-IsLink v (py.fresh n) (row ∷ rest.directions) (n + 1) segments (ground arith))
        (All-weaken _ _ rest.segments
          (λ s.
            IsLink-right (row ∷ []) rest.directions s.route_version_id (some s.route_direction_id))
          (direction_rows-IsLink v (i + 1) (n + 1 + length segments) ps))

  pub service_rows-IsLink :
      (v : Text) (n : ℕ) (ds : List DirectionRow) (ms : List ServiceDirectionMatch)
      (ss : List ServiceDirection)
      → All (λ d. d.route_version_id ≡ v) ds
      → All
          (λ s. (s.route_version_id ≡ v) × IsLink ds s.route_version_id s.route_direction_id)
          (service_rows py v n ds ms ss)
  unfolding service_rows
  service_rows-IsLink v n ds ms [] h = tt
  service_rows-IsLink v n ds ms (s ∷ ss) h = (
    (refl, IsLink-link_of v ds (last_match s.sequence ms) h),
    service_rows-IsLink v (n + 1) ds ms ss h,
  )
