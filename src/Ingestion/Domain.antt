-- ===== src/Ingestion/Domain.antt =====
-- The values that the ingestion passes on, src/sombreado/ingestion/domain.py. The empty text is 0, the
-- first of all. A coordinate is an opaque number, a point is (lon, lat).
use sombreado_service.Base.{ℕ, Option, List}
use sombreado_service.Store.Errors.{Text}

pub data DirectionMatchConfidence : Type 0 where
  high medium low none : DirectionMatchConfidence

pub data DirectionMatchMethod : Type 0 where
  label_endpoint label_order_ida_volta sequence_ida_volta unmatched : DirectionMatchMethod

-- The two literals of `direction_kind`.
pub data Kind : Type 0 where
  ida volta : Kind

pub record RouteDirection : Type 0 where
  pub name : Text
  pub coordinates : List (ℕ × ℕ)
  pub direction_kind : Option Kind

pub record MaterializedRouteSegment : Type 0 where
  pub sequence : ℕ
  pub source_segment_sequence : ℕ
  pub source_fraction_start : ℕ
  pub source_fraction_end : ℕ
  pub start : ℕ × ℕ
  pub end : ℕ × ℕ
  pub bearing_degrees : ℕ
  pub distance_meters : ℕ
  pub cumulative_distance_meters : ℕ

-- Without its schedules, which nothing behind the parsers reads.
pub record ServiceDirection : Type 0 where
  pub sequence : ℕ
  pub departure_label : Text
  pub normalized_name : Option Text
  pub direction_kind : Option Text

-- The dictionaries that a match carries.
pub data Notes : Type 0 where
  no_notes : Notes
  departure_label : Text → Notes
  first_mapped_to_ida second_mapped_to_volta : Notes

pub record ServiceDirectionMatch : Type 0 where
  pub service_direction_sequence : ℕ
  pub route_direction_sequence : Option ℕ
  pub confidence : DirectionMatchConfidence
  pub method : DirectionMatchMethod
  pub notes : Notes

-- `last_changed` is the text of its date.
pub record ParsedRoutePage : Type 0 where
  pub code : Text
  pub name : Text
  pub slug : Text
  pub page_url : Text
  pub map_url : Option Text
  pub category : Option Text
  pub fare_region : Option Text
  pub last_changed : Option Text
  pub service_directions : List ServiceDirection

pub record RouteSnapshot : Type 0 where
  pub route : ParsedRoutePage
  pub directions : List RouteDirection
  pub direction_matches : List ServiceDirectionMatch
  pub source_hash : Text
  pub map_hash : Option Text
