-- ===== src/Store/Validate.antt =====
-- `validate_generation` of src/sombreado/store/generation_writes.py: every query and guard of it.
pub mod Complete
pub mod Counts
use sombreado_service.Base.{
  ◌≡◌, ◌<◌, arith, ℕ, Bool, true, false, not, ◌&&◌, some, List, map, ◌==◌, count, filter, find?,
  length, sum, is_some,
}
use sombreado_service.Store.Errors.{
  Text, generation_does_not_exist, generation_is_not_staging, expected_counts_missing,
  no_route_membership, counts_do_not_match, geography_incomplete, membership_is_invalid,
  advice_segments_mismatch,
}
use sombreado_service.Store.Schema.{
  Db, Status, staging, validated, published, GenerationCounts, DatasetRouteVersionRecord,
}
use sombreado_service.Store.Tx.{Tx, ok, raise_if, or_raise, query, ◌>>=◌, ◌>>◌}
use sombreado_service.Store.Delete.{status_in}

-- The members of a generation.
abbrev pub members_of : Text → Db → List DatasetRouteVersionRecord
members_of g db = filter (λ m. m.generation_id == g) db.members

-- `count(*)` of a join of the members with a table, on the version id.
module _ {A : Type 0} where
  unfoldable pub joined : (A → Text) → List DatasetRouteVersionRecord → List A → ℕ
  joined version_of members rows =
      sum (map (λ m. count (λ r. version_of r == m.route_version_id) rows) members)

unfoldable pub count_directions : Text → Db → ℕ
unfolding joined
count_directions g db = joined (λ d. d.route_version_id) (members_of g db) db.route_directions

unfoldable pub count_services : Text → Db → ℕ
unfolding joined
count_services g db = joined (λ s. s.route_version_id) (members_of g db) db.service_directions

unfoldable pub count_segments : Text → Db → ℕ
unfolding joined
count_segments g db = joined (λ s. s.route_version_id) (members_of g db) db.route_segments

-- The segments whose geography is not NULL.
unfoldable pub count_geoms : Text → Db → ℕ
unfolding joined
count_geoms g db =
    joined (λ s. s.route_version_id) (members_of g db)
      (filter (λ s. is_some s.geom) db.route_segments)

-- Members whose version belongs to another route.
unfoldable pub count_invalid_members : Text → Db → ℕ
count_invalid_members g db = sum (
    map
      (λ m.
        count (λ v. v.id == m.route_version_id && not (v.route_id == m.route_id)) db.route_versions)
      (members_of g db))

unfoldable pub segments_of_direction : Text → Db → ℕ
segments_of_direction d db = count (λ s. s.route_direction_id == d) db.route_segments

-- Directions whose denormalised segments differ in number from their rows.
unfoldable pub count_mismatches : Text → Db → ℕ
unfolding segments_of_direction
count_mismatches g db = sum (
    map
      (λ m.
        count
          (λ d.
            d.route_version_id == m.route_version_id
            && not (length d.advice_segments == segments_of_direction d.id db))
          db.route_directions)
      (members_of g db))

abbrev pub is_staging : Status → Bool
is_staging staging = true
is_staging validated = false
is_staging published = false

unfoldable pub counts_match : Text → GenerationCounts → Db → Bool
counts_match g expected db =
    length (members_of g db) == expected.route_versions
    && count_directions g db == expected.route_directions
    && count_services g db == expected.service_directions
    && count_segments g db == expected.route_segments

-- The checks behind the query of the expected counts.
unfoldable pub check_generation : Text → GenerationCounts → Tx Unit
check_generation g expected = do
  raise_if (← query (λ db. length (members_of g db) == 0)) (no_route_membership g)
  raise_if (← query (λ db. not (counts_match g expected db))) (counts_do_not_match g)
  raise_if (← query (λ db. not (count_segments g db == count_geoms g db))) (geography_incomplete g)
  raise_if (← query (λ db. not (count_invalid_members g db == 0))) (membership_is_invalid g)
  raise_if (← query (λ db. not (count_mismatches g db == 0))) (advice_segments_mismatch g)

unfoldable pub validate_generation : Text → Tx Unit
validate_generation g = do
  found ← query (λ db. status_in g db.generations)
  status ← or_raise found (generation_does_not_exist g)
  raise_if (not (is_staging status)) (generation_is_not_staging g)
  counts ← query (λ db. find? (λ c. c.generation_id == g) db.counts)
  expected ← or_raise counts (expected_counts_missing g)
  check_generation g expected
