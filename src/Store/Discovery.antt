-- ===== src/Store/Discovery.antt =====
-- Reads of the current generation for advice and for direction choices,
-- src/sombreado/store/discovery.py. A select over the `current` pointer is a search of the members of
-- the current generation.
pub mod Context
pub mod Choices
pub mod Buckets
pub mod OneTrip
pub mod Search
pub mod Assembled
mod Tests
use sombreado_service.Base.{
  ℕ, Bool, true, false, not, ◌&&◌, ◌||◌, Option, none, some, List, [], ◌∷◌, ◌++◌, map, ◌==◌, any,
  elem, filter, find?, leb, ltb, is_some, if◌then◌else◌,
}
use sombreado_service.Base.Order.{sorted}
use sombreado_service.Store.Errors.{Text}
use sombreado_service.Store.Schema.{
  Db, RouteDirectionRecord, ServiceDirectionRecord, DatasetRouteVersionRecord, AdviceSegment,
}
use sombreado_service.Store.Validate.{members_of}

-- JOIN dataset_pointers ON ... AND role = 'current'
abbrev pub current_members : Option Text → Db → List DatasetRouteVersionRecord
current_members none db = []
current_members (some g) db = members_of g db

-- The version of the first row.
abbrev pub first_version : Option DatasetRouteVersionRecord → Option Text
first_version none = none
first_version (some m) = some m.route_version_id

unfoldable pub load_current_route_version_id : Text → Db → Option Text
load_current_route_version_id route_id db =
    first_version (find? (λ m. m.route_id == route_id) (current_members db.current db))

abbrev pub is_direction : Text → Text → RouteDirectionRecord → Bool
is_direction route_version_id route_direction_id d =
    d.route_version_id == route_version_id && d.id == route_direction_id

unfoldable pub route_direction_belongs_to_version : Text → Text → Db → Bool
route_direction_belongs_to_version route_version_id route_direction_id db =
    any (is_direction route_version_id route_direction_id) db.route_directions
    && any (λ m. m.route_version_id == route_version_id) (current_members db.current db)

pub data AdviceRouteContextStatus : Type 0 where
  context_ok route_not_found route_version_stale route_direction_not_found :
      AdviceRouteContextStatus

unfoldable pub resolve_advice_route_context_status :
    Option Text → Text → Bool → AdviceRouteContextStatus
resolve_advice_route_context_status none requested direction_belongs = route_not_found
resolve_advice_route_context_status (some current) requested direction_belongs =
    if not (current == requested)
    then route_version_stale
    else if not direction_belongs
    then route_direction_not_found
    else context_ok

-- The segments of the denormalised column, with their coordinates in place of the text that
-- `_segments_from_advice_denorm` prints of them.
pub record AdviceRouteContextRow : Type 0 where
  pub status : AdviceRouteContextStatus
  pub segments : List AdviceSegment

abbrev pub segments_of : Option RouteDirectionRecord → List AdviceSegment
segments_of none = []
segments_of (some d) = d.advice_segments

-- The segments are read only where the status is "ok".
abbrev pub context_row :
    AdviceRouteContextStatus → Option RouteDirectionRecord → AdviceRouteContextRow
context_row context_ok direction = record { status = context_ok; segments = segments_of direction }
context_row status direction = record { status = status; segments = [] }

-- `rows[0]` of the outer join: the member of the route, and the direction if its version has it.
abbrev pub context_of :
    Text
    → Text
    → Option DatasetRouteVersionRecord
    → List RouteDirectionRecord
    → AdviceRouteContextRow
context_of requested route_direction_id none directions = record {
  status = route_not_found;
  segments = [];
}
context_of requested route_direction_id (some m) directions =
    let direction = find? (is_direction m.route_version_id route_direction_id) directions in
    context_row
      (resolve_advice_route_context_status (some m.route_version_id) requested (is_some direction))
      direction

unfoldable pub load_advice_route_context : Text → Text → Text → Db → AdviceRouteContextRow
load_advice_route_context route_id route_version_id route_direction_id db =
    context_of route_version_id route_direction_id
      (find? (λ m. m.route_id == route_id) (current_members db.current db)) db.route_directions

pub record DirectionChoiceRow : Type 0 where
  pub route_direction_id : Text
  pub sequence : ℕ
  pub name : Text
  pub direction_kind : Option Text
  pub departure_labels : List Text

-- `if text_label not in bucket: bucket.append(text_label)`
unfoldable pub distinct_from : List Text → List Text → List Text
distinct_from bucket [] = bucket
distinct_from bucket (l ∷ ls) =
    distinct_from (if elem l bucket then bucket else bucket ++ l ∷ []) ls

-- `kind_order`, for the texts of "ida" and "volta".
abbrev pub kind_rank : Text → Text → Option Text → ℕ
kind_rank ida volta none = 2
kind_rank ida volta (some k) = if k == ida then 0 else if k == volta then 1 else 2

-- The key `(kind_order, sequence)`.
abbrev pub choice_le : Text → Text → DirectionChoiceRow → DirectionChoiceRow → Bool
choice_le ida volta a b =
    ltb (kind_rank ida volta a.direction_kind) (kind_rank ida volta b.direction_kind)
    || kind_rank ida volta a.direction_kind == kind_rank ida volta b.direction_kind
      && leb a.sequence b.sequence

-- The public labels of a direction, by sequence; `is_public` says which confidences are public.
unfoldable pub labels_of : (Text → Bool) → Text → List ServiceDirectionRecord → List Text
labels_of is_public direction_id services =
    map (λ s. s.departure_label)
      (sorted (λ (a b : ServiceDirectionRecord). leb a.sequence b.sequence)
        (filter (λ s. is_some_text direction_id s.route_direction_id && is_public s.confidence)
          services))
  where
    is_some_text : Text → Option Text → Bool
    is_some_text d none = false
    is_some_text d (some e) = e == d

unfoldable pub load_direction_choices :
    Text → Text → (Text → Bool) → Text → Db → List DirectionChoiceRow
unfolding labels_of distinct_from
load_direction_choices ida volta is_public route_version_id db = sorted (choice_le ida volta) (
    map
      (λ (d : RouteDirectionRecord). record {
        route_direction_id = d.id;
        sequence = d.sequence;
        name = d.name;
        direction_kind = d.direction_kind;
        departure_labels = distinct_from [] (labels_of is_public d.id db.service_directions);
      })
      (sorted (λ (a b : RouteDirectionRecord). leb a.sequence b.sequence)
        (filter
          (λ d.
            d.route_version_id == route_version_id
            && any (λ m. m.route_version_id == route_version_id) (current_members db.current db))
          db.route_directions)))
