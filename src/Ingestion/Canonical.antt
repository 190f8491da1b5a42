-- ===== src/Ingestion/Canonical.antt =====
-- `snapshots_to_canonical_rows` of src/sombreado/ingestion/canonical.py: fetched routes as the rows of
-- one generation.
pub mod Coherent
pub mod Complete
pub mod Wkt
mod Tests
use sombreado_service.Base.{
  ℕ, ◌+◌, Bool, Option, none, some, List, [], ◌∷◌, ◌++◌, map, find?, length, ◌==◌,
}
use sombreado_service.Base.Order.{sorted}
use sombreado_service.Store.Errors.{Text}
use sombreado_service.Store.Schema.{Codes, RouteRecord, RouteVersionRecord, ServiceDirectionRecord}
use sombreado_service.Store.Geometry.{codes}
use sombreado_service.Store.Writes.{CanonicalRows, DirectionRow, SegmentRow}
use sombreado_service.Ingestion.Domain.{
  DirectionMatchConfidence, DirectionMatchMethod, Kind, RouteDirection, MaterializedRouteSegment,
  ServiceDirection, Notes, no_notes, ServiceDirectionMatch, ParsedRoutePage, RouteSnapshot,
}
use sombreado_service.Ingestion.Directions.{
  DirectionName, passenger_facing_direction_names, last_match, by_sequence,
}
use sombreado_service.Ingestion.Segments.{Floats, materialize_route_segments}

-- What the code takes from Python: the n-th `uuid4`, `uuid5` of a route's code, the texts of floats, of
-- names, of enumerations and of the notes' JSON, and the float formulas of the segments.
pub record Python : Type 0 where
  pub fresh : ℕ → Text
  pub route_uuid : Text → Text
  pub print : ℕ → Codes
  pub name_text : DirectionName → Text
  pub kind_text : Kind → Text
  pub confidence_text : DirectionMatchConfidence → Text
  pub method_text : DirectionMatchMethod → Text
  pub notes_text : Notes → Text
  pub floats : Floats

-- `zip(..., strict=True)`; `none` is its ValueError.
unfoldable pub zip_strict :
    List RouteDirection → List DirectionName → Option (List (RouteDirection × DirectionName))
zip_strict [] [] = some []
zip_strict [] (_ ∷ _) = none
zip_strict (_ ∷ _) [] = none
zip_strict (d ∷ ds) (name ∷ names) = elim (zip_strict ds names) [
  | none ↦ none
  | some pairs ↦ some ((d, name) ∷ pairs)
]

-- `", ".join(f"{lon} {lat}" for lon, lat in coordinates)`
unfoldable pub joined : (ℕ → Codes) → List (ℕ × ℕ) → Codes
joined print [] = []
joined print (p ∷ []) = print p.0 ++ b' ' ∷ print p.1
joined print (p ∷ q ∷ ps) = print p.0 ++ b' ' ∷ (print p.1 ++ b',' ∷ b' ' ∷ joined print (q ∷ ps))

-- `_linestring_wkt` and `_segment_linestring_wkt`
unfoldable pub linestring_wkt : (ℕ → Codes) → List (ℕ × ℕ) → Codes
linestring_wkt print coordinates =
    codes "SRID=4326;LINESTRING(" ++ (joined print coordinates ++ b')' ∷ [])

-- 250 m in micrometres.
abbrev pub max_segment_length_meters : ℕ
max_segment_length_meters = 250_000_000

-- The rows of a version's directions and of their segments, and the number of uuids taken so far.
pub record DirectionRows : Type 0 where
  pub directions : List DirectionRow
  pub segments : List SegmentRow
  pub taken : ℕ

abbrev pub id_of : Option DirectionRow → Option Text
id_of none = none
id_of (some d) = some d.id

-- `direction_id_by_sequence.get(match.route_direction_sequence)`, where there is a match with one.
abbrev pub linked_direction_id : List DirectionRow → Option ℕ → Option Text
linked_direction_id directions none = none
linked_direction_id directions (some i) = id_of (find? (λ d. d.sequence == i) directions)

abbrev pub link_of : List DirectionRow → Option ServiceDirectionMatch → Option Text
link_of directions none = none
link_of directions (some m) = linked_direction_id directions m.route_direction_sequence

abbrev pub confidence_of : Option ServiceDirectionMatch → DirectionMatchConfidence
confidence_of none = DirectionMatchConfidence.none
confidence_of (some m) = m.confidence

abbrev pub method_of : Option ServiceDirectionMatch → DirectionMatchMethod
method_of none = DirectionMatchMethod.unmatched
method_of (some m) = m.method

abbrev pub notes_of : Option ServiceDirectionMatch → Notes
notes_of none = no_notes
notes_of (some m) = m.notes

module _ (py : Python) where
  abbrev pub segment_row : Text → Text → ℕ → MaterializedRouteSegment → SegmentRow
  segment_row version direction taken s = record {
    id = py.fresh taken;
    route_version_id = version;
    route_direction_id = direction;
    sequence = s.sequence;
    source_segment_sequence = s.source_segment_sequence;
    source_fraction_start = s.source_fraction_start;
    source_fraction_end = s.source_fraction_end;
    geometry = linestring_wkt py.print (s.start ∷ s.end ∷ []);
    bearing_degrees = s.bearing_degrees;
    distance_meters = s.distance_meters;
    cumulative_distance_meters = s.cumulative_distance_meters;
  }

  unfoldable pub segment_rows : Text → Text → ℕ → List MaterializedRouteSegment → List SegmentRow
  segment_rows version direction taken [] = []
  segment_rows version direction taken (s ∷ ss) =
      segment_row version direction taken s ∷ segment_rows version direction (taken + 1) ss

  abbrev pub kind_of : Option Kind → Option Text
  kind_of none = none
  kind_of (some k) = some (py.kind_text k)

  abbrev pub direction_row : Text → ℕ → ℕ → RouteDirection → DirectionName → DirectionRow
  direction_row version index taken d name = record {
    id = py.fresh taken;
    route_version_id = version;
    name = py.name_text name;
    direction_kind = kind_of d.direction_kind;
    sequence = index;
    geometry = linestring_wkt py.print d.coordinates;
  }

  unfoldable pub direction_rows :
      Text → ℕ → ℕ → List (RouteDirection × DirectionName) → DirectionRows
  direction_rows version index taken [] = record { directions = []; segments = []; taken = taken }
  direction_rows version index taken (p ∷ ps) =
      let segments = materialize_route_segments py.floats p.0 max_segment_length_meters in
      let rest = direction_rows version (index + 1) (taken + 1 + length segments) ps in
      record {
        directions = direction_row version index taken p.0 p.1 ∷ rest.directions;
        segments = segment_rows version (py.fresh taken) (taken + 1) segments ++ rest.segments;
        taken = rest.taken;
      }

  abbrev pub service_row :
      Text
      → ℕ
      → List DirectionRow
      → Option ServiceDirectionMatch
      → ServiceDirection
      → ServiceDirectionRecord
  service_row version taken directions match s = record {
    id = py.fresh taken;
    route_version_id = version;
    route_direction_id = link_of directions match;
    sequence = s.sequence;
    departure_label = s.departure_label;
    normalized_name = s.normalized_name;
    direction_kind = s.direction_kind;
    confidence = py.confidence_text (confidence_of match);
    method = py.method_text (method_of match);
    notes = py.notes_text (notes_of match);
  }

  unfoldable pub service_rows :
      Text
      → ℕ
      → List DirectionRow
      → List ServiceDirectionMatch
      → List ServiceDirection
      → List ServiceDirectionRecord
  service_rows version taken directions matches [] = []
  service_rows version taken directions matches (s ∷ ss) =
      service_row version taken directions (last_match s.sequence matches) s
      ∷ service_rows version (taken + 1) directions matches ss

  abbrev pub route_row : RouteSnapshot → RouteRecord
  route_row snapshot = record {
    id = py.route_uuid snapshot.route.code;
    code = snapshot.route.code;
    name = snapshot.route.name;
    slug = snapshot.route.slug;
    category = snapshot.route.category;
    fare_region = snapshot.route.fare_region;
    last_changed = snapshot.route.last_changed;
    is_current = 1;
  }

  abbrev pub version_row : ℕ → RouteSnapshot → RouteVersionRecord
  version_row taken snapshot = record {
    id = py.fresh taken;
    route_id = py.route_uuid snapshot.route.code;
    source_hash = snapshot.source_hash;
    map_hash = snapshot.map_hash;
    page_url = snapshot.route.page_url;
    map_url = snapshot.route.map_url;
    is_current = 1;
  }

  unfoldable pub named_directions : RouteSnapshot → Option (List (RouteDirection × DirectionName))
  named_directions snapshot = zip_strict snapshot.directions (
      passenger_facing_direction_names snapshot.route.code snapshot.directions
        snapshot.route.service_directions snapshot.direction_matches)

  -- One turn of the loop, and the rows of the turns behind it.
  abbrev pub with_snapshot_rows : ℕ → RouteSnapshot → DirectionRows → CanonicalRows → CanonicalRows
  with_snapshot_rows taken snapshot rows rest = record {
    routes = route_row snapshot ∷ rest.routes;
    route_versions = version_row taken snapshot ∷ rest.route_versions;
    route_directions = rows.directions ++ rest.route_directions;
    service_directions =
        service_rows (py.fresh taken) rows.taken rows.directions snapshot.direction_matches
          (sorted by_sequence snapshot.route.service_directions)
        ++ rest.service_directions;
    route_segments = rows.segments ++ rest.route_segments;
  }

  abbrev pub after_rest :
      ℕ → RouteSnapshot → DirectionRows → Option CanonicalRows → Option CanonicalRows
  after_rest taken snapshot rows none = none
  after_rest taken snapshot rows (some rest) = some (with_snapshot_rows taken snapshot rows rest)

  abbrev pub snapshot_turn :
      ℕ
      → RouteSnapshot
      → (ℕ → Option CanonicalRows)
      → Option (List (RouteDirection × DirectionName))
      → Option CanonicalRows
  snapshot_turn taken snapshot rest none = none
  snapshot_turn taken snapshot rest (some pairs) =
      let rows = direction_rows (py.fresh taken) 1 (taken + 1) pairs in
      after_rest taken snapshot rows (rest (rows.taken + length snapshot.route.service_directions))

  unfoldable pub canonical_rows_from : List RouteSnapshot → ℕ → Option CanonicalRows
  canonical_rows_from [] taken = some (record {
    routes = [];
    route_versions = [];
    route_directions = [];
    service_directions = [];
    route_segments = [];
  })
  canonical_rows_from (snapshot ∷ snapshots) taken =
      snapshot_turn taken snapshot (canonical_rows_from snapshots) (named_directions snapshot)

  unfoldable pub snapshots_to_canonical_rows : List RouteSnapshot → Option CanonicalRows
  snapshots_to_canonical_rows snapshots = canonical_rows_from snapshots 0
