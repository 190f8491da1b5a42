-- ===== src/Ingestion/Canonical/Tests.antt =====
-- The conversion of one route with two lines and a timetable.
use sombreado_service.Base.{
  ℕ, zero, suc, ◌+◌, ◌-◌, Option, none, some, List, [], ◌∷◌, map, ◌==◌, if◌then◌else◌, ◌≡◌, refl,
  arith,
}
use sombreado_service.Base.Order.{sorted, insert}
use sombreado_service.Store.Errors.{Text}
use sombreado_service.Store.Schema.{Codes}
use sombreado_service.Store.Geometry.{linestring_coordinates, is_space, is_empty}
use sombreado_service.Store.Geometry.Read.{IsPrinted}
use sombreado_service.Store.Writes.{CanonicalRows}
use sombreado_service.Ingestion.Domain.{
  DirectionMatchConfidence, DirectionMatchMethod, RouteSnapshot, no_notes, ida, volta,
}
use sombreado_service.Ingestion.Segments.{
  materialize_route_segments, materialize_from, pieces, split_count,
}
use sombreado_service.Ingestion.Directions.{
  passenger_facing_direction_names, names_with, origin_of, last_match,
}
use sombreado_service.Ingestion.Canonical.{
  Python, linestring_wkt, snapshots_to_canonical_rows, canonical_rows_from, named_directions,
  zip_strict, direction_rows, segment_rows, service_rows,
}
use sombreado_service.Ingestion.Canonical.Complete.{
  IsConverted, snapshots_to_canonical_rows-IsConverted,
}
use sombreado_service.Ingestion.Canonical.Wkt.{linestring_coordinates-linestring_wkt}

-- A float is printed as that many digits 1 and a digit 0.
abbrev ones : ℕ → Codes
ones zero = b'0' ∷ []
ones (suc n) = b'1' ∷ ones n

abbrev count_ones : Codes → ℕ
count_ones [] = 0
count_ones (c ∷ s) = let rest = count_ones s in if c == b'1' then suc rest else rest

abbrev read : Codes → Option ℕ
read s = some (count_ones s)

ones-IsPrinted : (n : ℕ) → IsPrinted (ones n)
unfolding is_space is_empty
ones-IsPrinted zero = (refl, ((refl, refl), tt))
ones-IsPrinted (suc n) = (refl, ((refl, refl), (ones-IsPrinted n).1))

read-ones : (n : ℕ) → read (ones n) ≡ some n
read-ones zero = refl
read-ones (suc n) = ground (arith, read-ones n)

linestring_coordinates-linestring_wkt_example :
    linestring_coordinates read (linestring_wkt ones ((2, 1) ∷ (0, 3) ∷ []))
    ≡ some ((2, 1) ∷ (0, 3) ∷ [])
linestring_coordinates-linestring_wkt_example =
    linestring_coordinates-linestring_wkt ones read ones-IsPrinted read-ones (2, 1) ((0, 3) ∷ [])

abbrev python : Python
python = record {
  fresh = λ n. 1000 + n;
  route_uuid = λ code. 500 + code;
  print = ones;
  name_text = λ name. 7;
  kind_text = λ kind. 8;
  confidence_text = λ confidence. 9;
  method_text = λ method. 10;
  notes_text = λ notes. 11;
  floats = record {
    distance = λ a b. b.1 - a.1;
    bearing = λ a b. 0;
    fraction = λ i n. i;
    interpolate = λ a b k. if k == 0 then a else b;
  };
}

abbrev snapshot : RouteSnapshot
snapshot = record {
  route = record {
    code = 1;
    name = 2;
    slug = 3;
    page_url = 4;
    map_url = none;
    category = none;
    fare_region = none;
    last_changed = none;
    service_directions =
        record { sequence = 1; departure_label = 60; normalized_name = none; direction_kind = none }
        ∷ [];
  };
  directions =
      record { name = 20; coordinates = (0, 0) ∷ (0, 1) ∷ []; direction_kind = some ida }
      ∷ record { name = 21; coordinates = (0, 1) ∷ (0, 2) ∷ []; direction_kind = some volta }
      ∷ [];
  direction_matches =
      record {
        service_direction_sequence = 1;
        route_direction_sequence = some 2;
        confidence = DirectionMatchConfidence.low;
        method = DirectionMatchMethod.sequence_ida_volta;
        notes = no_notes;
      }
      ∷ [];
  source_hash = 5;
  map_hash = none;
}

abbrev links : Option CanonicalRows → List Text × List Text × List (Option Text)
links none = ([], [], [])
links (some rows) = (
  map (λ d. d.id) rows.route_directions,
  map (λ s. s.route_direction_id) rows.route_segments,
  map (λ s. s.route_direction_id) rows.service_directions,
)

linked :
    links (snapshots_to_canonical_rows python (snapshot ∷ []))
    ≡ (1001 ∷ 1003 ∷ [], 1001 ∷ 1003 ∷ [], some 1003 ∷ [])
unfolding snapshots_to_canonical_rows canonical_rows_from named_directions zip_strict direction_rows
    segment_rows service_rows passenger_facing_direction_names names_with origin_of last_match
    sorted insert materialize_route_segments materialize_from pieces split_count
linked = refl

snapshots_to_canonical_rows-IsConverted_example :
    IsConverted python (snapshot ∷ []) (snapshots_to_canonical_rows python (snapshot ∷ []))
snapshots_to_canonical_rows-IsConverted_example =
    snapshots_to_canonical_rows-IsConverted python (snapshot ∷ [])
