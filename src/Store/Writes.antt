-- ===== src/Store/Writes.antt =====
-- The insert helpers of src/sombreado/store/generation_writes.py. `executemany` is one statement for
-- each row; a pipeline and its batches change the number of round trips only.
pub mod Frame
pub mod Groups
use sombreado_service.Base.{
  ℕ, zero, suc, Bool, Option, none, some, List, [], ◌∷◌, ◌++◌, map, ◌==◌, any, count, elem, leb,
  if◌then◌else◌,
}
use sombreado_service.Base.Order.{sorted}
use sombreado_service.Store.Errors.{Text, bad_geometry}
use sombreado_service.Store.Schema.{
  Codes, Db, RouteRecord, RouteVersionRecord, RouteDirectionRecord, ServiceDirectionRecord,
  RouteSegmentRecord, AdviceSegment, DatasetRouteVersionRecord, GenerationCounts, GenerationRoute,
}
use sombreado_service.Store.Tx.{Tx, or_raise, execute, ◌>>=◌, ◌>>◌, for_each}
use sombreado_service.Store.Geometry.{geography_wkt, linestring_coordinates}

-- A row of `route_directions` in an export.
pub record DirectionRow : Type 0 where
  pub id : Text
  pub route_version_id : Text
  pub name : Text
  pub direction_kind : Option Text
  pub sequence : ℕ
  pub geometry : Codes

-- A row of `route_segments` in an export.
pub record SegmentRow : Type 0 where
  pub id : Text
  pub route_version_id : Text
  pub route_direction_id : Text
  pub sequence : ℕ
  pub source_segment_sequence : ℕ
  pub source_fraction_start : ℕ
  pub source_fraction_end : ℕ
  pub geometry : Codes
  pub bearing_degrees : ℕ
  pub distance_meters : ℕ
  pub cumulative_distance_meters : ℕ

-- A mapping from table names to rows, in which tables may be missing.
pub record Export : Type 0 where
  pub routes : Option (List RouteRecord)
  pub route_versions : Option (List RouteVersionRecord)
  pub route_directions : Option (List DirectionRow)
  pub service_directions : Option (List ServiceDirectionRecord)
  pub route_segments : Option (List SegmentRow)

-- A complete export.
pub record CanonicalRows : Type 0 where
  pub routes : List RouteRecord
  pub route_versions : List RouteVersionRecord
  pub route_directions : List DirectionRow
  pub service_directions : List ServiceDirectionRecord
  pub route_segments : List SegmentRow

abbrev complete :
    Option (List RouteRecord)
    → Option (List RouteVersionRecord)
    → Option (List DirectionRow)
    → Option (List ServiceDirectionRecord)
    → Option (List SegmentRow)
    → Option CanonicalRows
complete (some r) (some v) (some d) (some s) (some g) = some (record {
  routes = r;
  route_versions = v;
  route_directions = d;
  service_directions = s;
  route_segments = g;
})
complete _ _ _ _ _ = none

-- `none` is the ValueError for missing tables.
unfoldable pub validate_export_shape : Export → Option CanonicalRows
validate_export_shape e =
    complete e.routes e.route_versions e.route_directions e.service_directions e.route_segments

-- ON CONFLICT (id) DO NOTHING
unfoldable pub add_route : RouteRecord → Db → Db
add_route row db =
    if any (λ r. r.id == row.id) db.routes then db else record db { routes = db.routes ++ row ∷ [] }

unfoldable pub insert_routes : List RouteRecord → Tx Unit
insert_routes rows = for_each rows (λ row. execute (add_route row))

unfoldable pub add_generation_route : Text → RouteRecord → Db → Db
add_generation_route generation_id row db =
    let snapshot : GenerationRoute = record {
      generation_id = generation_id;
      route_id = row.id;
      code = row.code;
      name = row.name;
      slug = row.slug;
      category = row.category;
      fare_region = row.fare_region;
      last_changed = row.last_changed;
      is_current = row.is_current;
    } in
    record db { generation_routes = db.generation_routes ++ snapshot ∷ [] }

unfoldable pub insert_generation_routes : Text → List RouteRecord → Tx Unit
insert_generation_routes g rows = for_each rows (λ row. execute (add_generation_route g row))

unfoldable pub add_route_version : RouteVersionRecord → Db → Db
add_route_version row db = record db { route_versions = db.route_versions ++ row ∷ [] }

unfoldable pub insert_route_versions : List RouteVersionRecord → Tx Unit
insert_route_versions rows = for_each rows (λ row. execute (add_route_version row))

-- `grouped.setdefault(key, []).append(row)`
unfoldable pub add_to_group :
    Text → SegmentRow → List (Text × List SegmentRow) → List (Text × List SegmentRow)
add_to_group k row [] = (k, row ∷ []) ∷ []
add_to_group k row ((j, rows) ∷ groups) =
    if j == k then (j, rows ++ row ∷ []) ∷ groups else (j, rows) ∷ add_to_group k row groups

unfoldable pub grouped_from :
    List (Text × List SegmentRow) → List SegmentRow → List (Text × List SegmentRow)
grouped_from groups [] = groups
grouped_from groups (row ∷ rows) =
    grouped_from (add_to_group row.route_direction_id row groups) rows

module _ {A : Type 0} where
  -- `groups.get(key, [])`
  unfoldable pub get_or_nil : Text → List (Text × List A) → List A
  get_or_nil k [] = []
  get_or_nil k ((j, rows) ∷ groups) = if j == k then rows else get_or_nil k groups

unfoldable pub sequence_le : SegmentRow → SegmentRow → Bool
sequence_le a b = leb a.sequence b.sequence

module _ (float : Codes → Option ℕ) where
  unfoldable pub advice_segment : SegmentRow → Option AdviceSegment
  advice_segment s = elim (linestring_coordinates float s.geometry) [
    | none ↦ none
    | some c ↦ some (record {
      public_id = s.id;
      sequence = s.sequence;
      coordinates = c;
      bearing_degrees = s.bearing_degrees;
      distance_meters = s.distance_meters;
      cumulative_distance_meters = s.cumulative_distance_meters;
    })
  ]

  unfoldable pub advice_segments_of : List SegmentRow → Option (List AdviceSegment)
  advice_segments_of [] = some []
  advice_segments_of (s ∷ rest) = elim (advice_segment s) [
    | none ↦ none
    | some a ↦ elim (advice_segments_of rest) [ none ↦ none | some as' ↦ some (a ∷ as') ]
  ]

  unfoldable pub advice_groups :
      List (Text × List SegmentRow) → Option (List (Text × List AdviceSegment))
  advice_groups [] = some []
  advice_groups ((k, rows) ∷ groups) = elim (advice_segments_of (sorted sequence_le rows)) [
    | none ↦ none
    | some a ↦ elim (advice_groups groups) [ none ↦ none | some rest ↦ some ((k, a) ∷ rest) ]
  ]

  -- `none` is a ValueError of a geometry.
  unfoldable pub advice_segments_by_direction :
      List SegmentRow → Option (List (Text × List AdviceSegment))
  advice_segments_by_direction rows = advice_groups (grouped_from [] rows)

unfoldable pub add_route_direction : List (Text × List AdviceSegment) → DirectionRow → Db → Db
add_route_direction advice row db =
    let direction : RouteDirectionRecord = record {
      id = row.id;
      route_version_id = row.route_version_id;
      name = row.name;
      direction_kind = row.direction_kind;
      sequence = row.sequence;
      geometry = row.geometry;
      advice_segments = get_or_nil row.id advice;
    } in
    record db { route_directions = db.route_directions ++ direction ∷ [] }

unfoldable pub insert_route_directions :
    List DirectionRow → List (Text × List AdviceSegment) → Tx Unit
insert_route_directions rows advice =
    for_each rows (λ row. execute (add_route_direction advice row))

unfoldable pub add_service_direction : ServiceDirectionRecord → Db → Db
add_service_direction row db = record db { service_directions = db.service_directions ++ row ∷ [] }

unfoldable pub insert_service_directions : List ServiceDirectionRecord → Tx Unit
insert_service_directions rows = for_each rows (λ row. execute (add_service_direction row))

-- A row of the payload, with its `wkt`.
unfoldable pub add_segment : SegmentRow → Codes → Db → Db
add_segment row wkt db =
    let segment : RouteSegmentRecord = record {
      public_id = row.id;
      route_version_id = row.route_version_id;
      route_direction_id = row.route_direction_id;
      sequence = row.sequence;
      source_segment_sequence = row.source_segment_sequence;
      source_fraction_start = row.source_fraction_start;
      source_fraction_end = row.source_fraction_end;
      geometry = row.geometry;
      geom = some wkt;
      bearing_degrees = row.bearing_degrees;
      distance_meters = row.distance_meters;
      cumulative_distance_meters = row.cumulative_distance_meters;
    } in
    record db { route_segments = db.route_segments ++ segment ∷ [] }

-- The payload is built before the first row goes out.
unfoldable pub segment_payload : List SegmentRow → Option (List (SegmentRow × Codes))
segment_payload [] = some []
segment_payload (row ∷ rows) = elim (geography_wkt row.geometry) [
  | none ↦ none
  | some wkt ↦ elim (segment_payload rows) [ none ↦ none | some rest ↦ some ((row, wkt) ∷ rest) ]
]

unfoldable pub insert_segments : List SegmentRow → Tx Unit
insert_segments rows = do
  payload ← or_raise (segment_payload rows) bad_geometry
  for_each payload (λ p. execute (add_segment p.0 p.1))

unfoldable pub add_member : Text → RouteVersionRecord → Db → Db
add_member g row db =
    let member : DatasetRouteVersionRecord = record {
      generation_id = g;
      route_id = row.route_id;
      route_version_id = row.id;
    } in
    record db { members = db.members ++ member ∷ [] }

unfoldable pub insert_membership : Text → List RouteVersionRecord → Tx Unit
insert_membership g rows = for_each rows (λ row. execute (add_member g row))

-- `len({...})`
unfoldable pub distinct_count : List Text → ℕ
distinct_count [] = zero
distinct_count (x ∷ xs) = let rest = distinct_count xs in if elem x xs then rest else suc rest

unfoldable pub expected_counts : Text → CanonicalRows → GenerationCounts
expected_counts g rows =
    let versions = map (λ (v : RouteVersionRecord). v.id) rows.route_versions in
    record {
      generation_id = g;
      route_versions = distinct_count versions;
      route_directions = count (λ d. elem d.route_version_id versions) rows.route_directions;
      service_directions = count (λ s. elem s.route_version_id versions) rows.service_directions;
      route_segments = count (λ s. elem s.route_version_id versions) rows.route_segments;
    }

unfoldable pub insert_expected_counts : Text → CanonicalRows → Tx Unit
insert_expected_counts g rows =
    execute (λ db. record db { counts = db.counts ++ expected_counts g rows ∷ [] })

-- `float` is Python's.
unfoldable pub insert_staged_rows : (Codes → Option ℕ) → Text → CanonicalRows → Tx Unit
insert_staged_rows float g rows = do
  insert_routes rows.routes
  insert_generation_routes g rows.routes
  insert_route_versions rows.route_versions
  advice ← or_raise (advice_segments_by_direction float rows.route_segments) bad_geometry
  insert_route_directions rows.route_directions advice
  insert_service_directions rows.service_directions
  insert_segments rows.route_segments
  insert_membership g rows.route_versions
  insert_expected_counts g rows
