-- ===== src/Store/Discovery/Search.antt =====
-- `search_route_candidates` and `find_nearby_route_candidates` of src/sombreado/store/discovery.py.
pub mod Hinted
use sombreado_service.Base.{
  ℕ, Bool, true, false, ◌&&◌, ◌||◌, Option, none, some, List, [], ◌∷◌, ◌++◌, map, take, any, filter,
  find?, elem, ◌==◌, ltb, leb, if◌then◌else◌,
}
use sombreado_service.Base.Order.{sorted}
use sombreado_service.Store.Errors.{Text}
use sombreado_service.Store.Schema.{
  Db, RouteRecord, RouteDirectionRecord, DatasetRouteVersionRecord,
}
use sombreado_service.Store.Discovery.{current_members, distinct_from, labels_of}
use sombreado_service.Store.Discovery.Buckets.{outer_rows, assembled, or_null, present}
use sombreado_service.Store.Discovery.OneTrip.{directions_of_version, label_options}

-- A row of the candidates' select.
pub record Candidate : Type 0 where
  pub route_id : Text
  pub route_version_id : Text
  pub route_code : Text
  pub route_name : Text

pub record RouteCandidateRow : Type 0 where
  pub route_id : Text
  pub route_version_id : Text
  pub route_code : Text
  pub route_name : Text
  pub direction_hints : List Text
  pub distance_meters : Option ℕ

abbrev pub candidate_of : RouteRecord → DatasetRouteVersionRecord → Candidate
candidate_of r m = record {
  route_id = r.id;
  route_version_id = m.route_version_id;
  route_code = r.code;
  route_name = r.name;
}

-- The join of a member with its route, which is one where the references hold.
abbrev pub with_route :
    DatasetRouteVersionRecord → Option RouteRecord → List Candidate → List Candidate
with_route m none rest = rest
with_route m (some r) rest = candidate_of r m ∷ rest

unfoldable pub join_routes : List RouteRecord → List DatasetRouteVersionRecord → List Candidate
join_routes routes [] = []
join_routes routes (m ∷ ms) =
    with_route m (find? (λ r. r.id == m.route_id) routes) (join_routes routes ms)

-- ORDER BY code, name
abbrev pub candidate_le : Candidate → Candidate → Bool
candidate_le a b =
    ltb a.route_code b.route_code || a.route_code == b.route_code && leb a.route_name b.route_name

-- `search_route_candidates_statement`; `ilike` says which texts the pattern of the query is like.
unfoldable pub search_candidates : (Text → Bool) → ℕ → Db → List Candidate
search_candidates ilike limit db = take limit (
    sorted candidate_le (
      filter (λ c. ilike c.route_code || ilike c.route_name)
        (join_routes db.routes (current_members db.current db))))

-- The public labels of a version's directions, with null for a direction without one.
unfoldable pub hint_options : (Text → Bool) → Db → List RouteDirectionRecord → List (Option Text)
hint_options is_public db [] = []
hint_options is_public db (d ∷ ds) =
    or_null (label_options is_public db d) ++ hint_options is_public db ds

-- `search_route_candidates_with_hints_statement`: a version's rows come one after another, since no other
-- route has its code.
unfoldable pub hinted_rows :
    (Text → Bool) → Db → List Candidate → List (Option Candidate × Option Text)
hinted_rows is_public db candidates =
    outer_rows (λ c. hint_options is_public db (directions_of_version c.route_version_id db))
      candidates

abbrev pub candidate_row : Candidate × List Text → RouteCandidateRow
candidate_row b = record {
  route_id = b.0.route_id;
  route_version_id = b.0.route_version_id;
  route_code = b.0.route_code;
  route_name = b.0.route_name;
  direction_hints = b.1;
  distance_meters = none;
}

unfoldable pub search_route_candidates :
    (Text → Bool) → (Text → Bool) → ℕ → Db → List RouteCandidateRow
search_route_candidates is_public ilike limit db = map candidate_row (
    assembled (λ c. c.route_version_id) []
      (hinted_rows is_public db (search_candidates ilike limit db)))

-- The labels of one version in `direction_hints_statement`, whose joins leave no null.
unfoldable pub labels_of_version : (Text → Bool) → Db → List RouteDirectionRecord → List Text
labels_of_version is_public db [] = []
labels_of_version is_public db (d ∷ ds) =
    labels_of is_public d.id db.service_directions ++ labels_of_version is_public db ds

-- The bucket that `_direction_hints_by_version` fills for one of its versions, a current one.
unfoldable pub hints_of_version : (Text → Bool) → Db → Text → List Text
hints_of_version is_public db version =
    distinct_from [] (labels_of_version is_public db (directions_of_version version db))
