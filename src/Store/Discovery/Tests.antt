-- ===== src/Store/Discovery/Tests.antt =====
-- The reads at a current generation whose version 20 has two directions.
use sombreado_service.Base.{
  true, ◌≡◌, refl, ℕ, Bool, ◌==◌, none, some, List, [], ◌∷◌, map, count, any, ◌&&◌,
}
use sombreado_service.Base.Order.{sorted, insert}
use sombreado_service.Store.Errors.{Text}
use sombreado_service.Store.Schema.{
  Db, published, RouteDirectionRecord, ServiceDirectionRecord, empty,
}
use sombreado_service.Store.Discovery.{
  DirectionChoiceRow, load_current_route_version_id, load_advice_route_context,
  load_direction_choices, current_members, labels_of, distinct_from,
}
use sombreado_service.Store.Discovery.Context.{Tells, load_advice_route_context-Tells}
use sombreado_service.Store.Schema.{satisfies_constraints}
use sombreado_service.Store.Discovery.Buckets.{outer_rows, assembled}
use sombreado_service.Store.Discovery.OneTrip.{load_direction_choices_for_route, joined_rows}
use sombreado_service.Store.Discovery.Assembled.{
  reads_of, load_direction_choices_for_route-reads_of,
}
use sombreado_service.Store.Discovery.Search.{
  search_route_candidates, hinted_rows, search_candidates, join_routes, hint_options,
}
use sombreado_service.Store.Discovery.Search.Hinted.{hinted, search_route_candidates-hinted}
use sombreado_service.Store.Discovery.Choices.{IsInOrder, load_direction_choices_lem}

-- 1 is the text of "ida", 2 of "volta".
abbrev direction : Text → Text → ℕ → RouteDirectionRecord
direction i kind sequence = record {
  id = i;
  route_version_id = 20;
  name = 300;
  direction_kind = some kind;
  sequence = sequence;
  geometry = [];
  advice_segments = [];
}

abbrev service : Text → ℕ → Text → ServiceDirectionRecord
service i sequence label = record {
  id = i;
  route_version_id = 20;
  route_direction_id = some 31;
  sequence = sequence;
  departure_label = label;
  normalized_name = none;
  direction_kind = none;
  confidence = 5;
  method = 0;
  notes = 0;
}

abbrev served : Db
served = record empty {
  route_directions = direction 30 2 1 ∷ direction 31 1 2 ∷ [];
  service_directions = service 40 2 401 ∷ service 41 1 400 ∷ service 42 3 400 ∷ [];
  generations = record { id = 1; status = published; created_at = 100; validated_at = none } ∷ [];
  members = record { generation_id = 1; route_id = 10; route_version_id = 20 } ∷ [];
  current = some 1;
}

abbrev is_public : Text → Bool
is_public confidence = confidence == 5

abbrev labelled : DirectionChoiceRow → Text × List Text
labelled c = (c.route_direction_id, c.departure_labels)

-- "ida" comes first, with its labels by sequence and once.
choices :
    map labelled (load_direction_choices 1 2 is_public 20 served)
    ≡ (31, 400 ∷ 401 ∷ []) ∷ (30, []) ∷ []
unfolding load_direction_choices labels_of distinct_from sorted insert
choices = refl

load_advice_route_context-Tells_example :
    Tells 20 31
      (load_current_route_version_id 10 served)
      served.route_directions
      (load_advice_route_context 10 20 31 served)
load_advice_route_context-Tells_example = load_advice_route_context-Tells 10 20 31 served

load_direction_choices_lem_example :
    IsInOrder 1 2 (load_direction_choices 1 2 is_public 20 served)
    × ((i : Text)
        → count (λ c. c.route_direction_id == i) (load_direction_choices 1 2 is_public 20 served)
          ≡ count
              (λ d.
                d.id == i
                && (d.route_version_id == 20
                    && any (λ m. m.route_version_id == 20) (current_members served.current served)))
              served.route_directions)
load_direction_choices_lem_example = load_direction_choices_lem 1 2 is_public 20 served

-- The same with the rows that its references need.
abbrev complete : Db
complete = record served {
  routes =
      record {
        id = 10;
        code = 110;
        name = 111;
        slug = 112;
        category = none;
        fare_region = none;
        last_changed = none;
        is_current = 1;
      }
      ∷ [];
  route_versions =
      record {
        id = 20;
        route_id = 10;
        source_hash = 120;
        map_hash = none;
        page_url = 121;
        map_url = none;
        is_current = 1;
      }
      ∷ [];
  service_directions = service 40 2 401 ∷ service 41 1 400 ∷ [];
}

complete-constraints : satisfies_constraints complete ≡ true
unfolding satisfies_constraints
complete-constraints = refl

one_trip :
    map labelled (load_direction_choices_for_route 1 2 is_public 10 none complete).directions
    ≡ (31, 400 ∷ 401 ∷ []) ∷ (30, []) ∷ []
unfolding load_direction_choices_for_route joined_rows outer_rows assembled labels_of sorted insert
one_trip = refl

load_direction_choices_for_route-reads_of_example :
    load_direction_choices_for_route 1 2 is_public 10 (some 21) complete
    ≡ reads_of 1 2 is_public (some 21) complete (load_current_route_version_id 10 complete)
load_direction_choices_for_route-reads_of_example =
    load_direction_choices_for_route-reads_of 1 2 is_public complete complete-constraints 10
      (some 21)

any_text : Text → Bool
any_text text = true

searched :
    map (λ c. c.direction_hints) (search_route_candidates is_public any_text 5 complete)
    ≡ (400 ∷ 401 ∷ []) ∷ []
unfolding search_route_candidates hinted_rows search_candidates join_routes hint_options any_text
    outer_rows assembled labels_of sorted insert
searched = refl

search_route_candidates-hinted_example :
    search_route_candidates is_public any_text 5 complete
    ≡ map (hinted is_public complete) (search_candidates any_text 5 complete)
search_route_candidates-hinted_example =
    search_route_candidates-hinted is_public complete complete-constraints any_text 5
