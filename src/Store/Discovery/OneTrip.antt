-- ===== src/Store/Discovery/OneTrip.antt =====
-- `load_direction_choices_for_route` of src/sombreado/store/discovery.py: the version of a route and its
-- choices from the rows of one outer join.
use sombreado_service.Base.{
  Bool, false, not, Option, none, some, List, [], ◌∷◌, map, ◌==◌, filter, find?, leb, if◌then◌else◌,
}
use sombreado_service.Base.Order.{sorted}
use sombreado_service.Store.Errors.{Text}
use sombreado_service.Store.Schema.{Db, RouteDirectionRecord, DatasetRouteVersionRecord}
use sombreado_service.Store.Discovery.{current_members, DirectionChoiceRow, choice_le, labels_of}
use sombreado_service.Store.Discovery.Buckets.{outer_rows, assembled}

pub data DirectionChoicesContextStatus : Type 0 where
  choices_ok route_not_found route_version_stale : DirectionChoicesContextStatus

pub record DirectionChoicesContextRow : Type 0 where
  pub status : DirectionChoicesContextStatus
  pub route_version_id : Option Text
  pub directions : List DirectionChoiceRow

abbrev pub or_null_row :
    List (Option RouteDirectionRecord × Option Text)
    → List (Option RouteDirectionRecord × Option Text)
or_null_row [] = (none, none) ∷ []
or_null_row (r ∷ rs) = r ∷ rs

-- The directions of a version by sequence, which no two of them share.
abbrev pub directions_of_version : Text → Db → List RouteDirectionRecord
directions_of_version version db =
    sorted (λ (a b : RouteDirectionRecord). leb a.sequence b.sequence)
      (filter (λ d. d.route_version_id == version) db.route_directions)

abbrev pub label_options : (Text → Bool) → Db → RouteDirectionRecord → List (Option Text)
label_options is_public db d = map some (labels_of is_public d.id db.service_directions)

-- `direction_choices_for_route_statement`, for the member of the route.
unfoldable pub joined_rows :
    (Text → Bool) → Text → Db → List (Option RouteDirectionRecord × Option Text)
joined_rows is_public version db =
    or_null_row (outer_rows (label_options is_public db) (directions_of_version version db))

abbrev pub choice_row : RouteDirectionRecord × List Text → DirectionChoiceRow
choice_row b = record {
  route_direction_id = b.0.id;
  sequence = b.0.sequence;
  name = b.0.name;
  direction_kind = b.0.direction_kind;
  departure_labels = b.1;
}

abbrev pub failed_choices : DirectionChoicesContextStatus → DirectionChoicesContextRow
failed_choices status = record { status = status; route_version_id = none; directions = [] }

abbrev pub is_stale : Option Text → Text → Bool
is_stale none current = false
is_stale (some requested) current = not (current == requested)

abbrev pub choices_of :
    Text
    → Text
    → (Text → Bool)
    → Option Text
    → Db
    → Option DatasetRouteVersionRecord
    → DirectionChoicesContextRow
choices_of ida volta is_public requested db none = failed_choices route_not_found
choices_of ida volta is_public requested db (some m) =
    if is_stale requested m.route_version_id then failed_choices route_version_stale else record {
      status = choices_ok;
      route_version_id = some m.route_version_id;
      directions =
          sorted (choice_le ida volta) (
            map choice_row
              (assembled (λ d. d.id) [] (joined_rows is_public m.route_version_id db)));
    }

-- A generation has one member of a route, so all rows have its version.
unfoldable pub load_direction_choices_for_route :
    Text → Text → (Text → Bool) → Text → Option Text → Db → DirectionChoicesContextRow
load_direction_choices_for_route ida volta is_public route_id requested db =
    choices_of ida volta is_public requested db
      (find? (λ m. m.route_id == route_id) (current_members db.current db))
