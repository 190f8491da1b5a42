-- ===== src/Ingestion/Canonical/Complete.antt =====
-- The conversion of src/sombreado/ingestion/canonical.py always returns, and its rows are coherent.
use sombreado_service.Base.{
  ℕ, ◌+◌, Option, none, some, List, [], ◌∷◌, All-append, All-weaken, length, map, ◌==◌, ◌≡◌, refl,
  ap, arith,
}
use sombreado_service.Base.Order.{sorted}
use sombreado_service.Store.Writes.{CanonicalRows}
use sombreado_service.Ingestion.Domain.{RouteDirection, RouteSnapshot}
use sombreado_service.Ingestion.Directions.{DirectionName, by_sequence}
use sombreado_service.Ingestion.Directions.Names.{length-passenger_facing_direction_names}
use sombreado_service.Ingestion.Canonical.{
  Python, zip_strict, direction_rows, service_rows, version_row, route_row, named_directions,
  with_snapshot_rows, after_rest, canonical_rows_from, snapshots_to_canonical_rows,
}
use sombreado_service.Ingestion.Canonical.Coherent.{
  IsCoherent, IsLink-left, IsLink-right, any-right, direction_rows-of, direction_rows-IsLink,
  service_rows-IsLink,
}

zip_strict-some :
    (ds : List RouteDirection) (names : List DirectionName)
    → length names ≡ length ds
    → (ps : List (RouteDirection × DirectionName)) × (zip_strict ds names ≡ some ps)
unfolding zip_strict
zip_strict-some [] [] h = ([], refl)
zip_strict-some [] (_ ∷ _) h = absurd (omega (arith, h))
zip_strict-some (_ ∷ _) [] h = absurd (omega (arith, h))
zip_strict-some (d ∷ ds) (name ∷ names) h =
    let r = zip_strict-some ds names (omega (arith, h)) in ((d, name) ∷ r.0, rw r.1 refl)

module _ (py : Python) where
  named_directions-some :
      (s : RouteSnapshot)
      → (ps : List (RouteDirection × DirectionName)) × (named_directions py s ≡ some ps)
  unfolding named_directions
  named_directions-some s = zip_strict-some s.directions _ (
      length-passenger_facing_direction_names s.route.code s.directions s.route.service_directions
        s.direction_matches)

  -- The rows of a snapshot in front of coherent ones.
  with_snapshot_rows-IsCoherent :
      (n : ℕ) (s : RouteSnapshot) (ps : List (RouteDirection × DirectionName))
      (rest : CanonicalRows)
      → IsCoherent rest
      → IsCoherent (with_snapshot_rows py n s (direction_rows py (py.fresh n) 1 (n + 1) ps) rest)
  with_snapshot_rows-IsCoherent n s ps rest h =
      let v = py.fresh n in
      let rows = direction_rows py v 1 (n + 1) ps in
      let version = version_row py n s in
      let services =
        service_rows py v rows.taken rows.directions s.direction_matches
          (sorted by_sequence s.route.service_directions) in
      record {
        versions = (
          ground arith,
          All-weaken _ _ rest.route_versions
              (λ x. any-right (λ r. r.id == x.route_id) (route_row py s ∷ []) rest.routes)
              h.versions,
        );
        directions =
            All-append _ rows.directions rest.route_directions
              (All-weaken _ _ rows.directions (λ d e. ground (arith, e))
                (direction_rows-of py v 1 (n + 1) ps))
              (All-weaken _ _ rest.route_directions
                (λ d.
                  any-right (λ x. x.id == d.route_version_id) (version ∷ []) rest.route_versions)
                h.directions);
        segments =
            All-append _ rows.segments rest.route_segments
              (All-weaken _ _ rows.segments
                (λ x.
                  IsLink-left rows.directions rest.route_directions x.route_version_id
                    (some x.route_direction_id))
                (direction_rows-IsLink py v 1 (n + 1) ps))
              (All-weaken _ _ rest.route_segments
                (λ x.
                  IsLink-right rows.directions rest.route_directions x.route_version_id
                    (some x.route_direction_id))
                h.segments);
        services =
            All-append _ services rest.service_directions
              (All-weaken _ _ services
                (λ x e. (
                  ground (arith, e.0),
                  IsLink-left rows.directions rest.route_directions x.route_version_id
                      x.route_direction_id e.1,
                ))
                (service_rows-IsLink py v rows.taken rows.directions s.direction_matches
                  (sorted by_sequence s.route.service_directions)
                  (direction_rows-of py v 1 (n + 1) ps)))
              (All-weaken _ _ rest.service_directions
                (λ x e. (
                  any-right (λ y. y.id == x.route_version_id) (version ∷ []) rest.route_versions
                      e.0,
                  IsLink-right rows.directions rest.route_directions x.route_version_id
                      x.route_direction_id e.1,
                ))
                h.services);
      }

  -- A result with coherent rows, which have the routes of the snapshots.
  abbrev pub IsConverted : List RouteSnapshot → Option CanonicalRows → Type 0
  IsConverted snapshots none = ⊥
  IsConverted snapshots (some rows) =
      IsCoherent rows × (map (λ r. r.code) rows.routes ≡ map (λ s. s.route.code) snapshots)

  after_rest-IsConverted :
      (n : ℕ) (s : RouteSnapshot) (ps : List (RouteDirection × DirectionName))
      (snapshots : List RouteSnapshot) (o : Option CanonicalRows)
      → IsConverted snapshots o
      → IsConverted
          (s ∷ snapshots)
          (after_rest py n s (direction_rows py (py.fresh n) 1 (n + 1) ps) o)
  after_rest-IsConverted n s ps snapshots none h = absurd h
  after_rest-IsConverted n s ps snapshots (some rest) h =
      (with_snapshot_rows-IsCoherent n s ps rest h.0, ap (λ cs. s.route.code ∷ cs) h.1)

  canonical_rows_from-IsConverted :
      (snapshots : List RouteSnapshot) (n : ℕ)
      → IsConverted snapshots (canonical_rows_from py snapshots n)
  unfolding canonical_rows_from
  canonical_rows_from-IsConverted [] n =
      (record { versions = tt; directions = tt; segments = tt; services = tt }, refl)
  canonical_rows_from-IsConverted (s ∷ snapshots) n =
      let named = named_directions-some s in
      rw named.1 (
        after_rest-IsConverted n s named.0 snapshots _
          (canonical_rows_from-IsConverted snapshots _))

  -- The conversion of any snapshots returns: each direction gets a name, so the strict zip never raises.
  -- There is one route for each snapshot, in their order; each version is of one of the routes; each
  -- direction and each timetable is of one of the versions; and each segment, and each timetable that is
  -- linked, names a direction of its own version.
  pub snapshots_to_canonical_rows-IsConverted :
      (snapshots : List RouteSnapshot)
      → IsConverted snapshots (snapshots_to_canonical_rows py snapshots)
  unfolding snapshots_to_canonical_rows
  snapshots_to_canonical_rows-IsConverted snapshots = canonical_rows_from-IsConverted snapshots 0
