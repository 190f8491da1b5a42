-- ===== src/Store/Tests.antt =====
-- The theorems of the store at a small database: generation 1 is current, 2 is validated and 3 is
-- staging; 1 and 2 share the version 20 of the route 10.
use mathlib.Core.Logic.{◌↔◌}
use sombreado_service.Store.Geometry.{codes, linestring_coordinates}
use sombreado_service.Base.{
  Bool, map, elem, ℕ, ◌-◌, ◌≢◌, ◌≡◌, refl, true, false, Option, none, some, List, [], ◌∷◌, ◌==◌,
  filter, arith,
}
use sombreado_service.Base.Order.{sorted, insert}
use sombreado_service.Store.Errors.{Text, lease_held_by}
use sombreado_service.Store.Schema.{
  Codes, Db, Status, staging, validated, published, DatasetGenerationRecord, RouteRecord,
  RouteVersionRecord, DatasetRouteVersionRecord, GenerationCounts, Lease, RunOutcome, ScrapeRun,
  empty, satisfies_constraints, AdviceSegment,
}
use sombreado_service.Store.Tx.{Result, ok, err, for_each, execute, transaction}
use sombreado_service.Store.Hoare.{Post}
use sombreado_service.Store.Delete.{
  delete_pointers, delete_counts, delete_generation_routes, delete_members, delete_generations,
  delete_version, delete_version_data, still_referenced, orphans, version_ids, delete_generation,
  delete_orphan_staging,
}
use sombreado_service.Store.Delete.Shared.{
  data_of, Holds, IsCleared, delete_generation-keeps_shared, delete_generation-clears,
}
use sombreado_service.Store.Writes.{
  validate_export_shape, insert_staged_rows, insert_routes, insert_generation_routes,
  insert_route_versions, insert_route_directions, insert_service_directions, insert_segments,
  segment_payload, insert_membership, insert_expected_counts, expected_counts, distinct_count,
  add_route, add_generation_route, add_route_version, add_member, Export, SegmentRow, get_or_nil,
  sequence_le, advice_segments_of, advice_segments_by_direction, advice_groups, advice_segment,
  grouped_from, add_to_group,
}
use sombreado_service.Store.Writes.Groups.{advice_segments_by_direction_lem}
use sombreado_service.Store.Validate.{
  validate_generation, check_generation, counts_match, count_directions, count_services,
  count_segments, count_geoms, count_invalid_members, count_mismatches, joined,
}
use sombreado_service.Store.Validate.Complete.{IsComplete, validate_generation_iff}
use sombreado_service.Store.Lifecycle.{
  stage, validate, publish, discard_staging, publish_rows, retire_previous, demote, point_current,
  point_previous, set_published, apply_generation_routes, validate_rows, one_row_staging,
  set_validated, stage_rows, add_generation,
}
use sombreado_service.Store.Lifecycle.Invariant.{IsValid}
use sombreado_service.Store.Lifecycle.Publish.{Outcome, Published, publish-Published}
use sombreado_service.Store.Lifecycle.Purge.{Purged, delete_orphan_staging-Purged}
use sombreado_service.Store.Lifecycle.Stage.{Staged, stage-Staged}
use sombreado_service.Store.Lifecycle.Discard.{
  Discarded, ValidateOutcome, discard_staging-Discarded, validate-ValidateOutcome,
}
use sombreado_service.Store.Lifecycle.Serves.{Serves}
use sombreado_service.Store.Reach.{publishes, claims, Reach, here, next, Step-Serves, Reach-IsValid}
use sombreado_service.Store.Lease.{claim_scrape_lease, release_scrape_lease, scrape_lease_holder}
use sombreado_service.Store.Lease.Returns.{claim_scrape_lease-returns, claim_scrape_lease-excludes}
use sombreado_service.Store.Lease.{write_lease}
use sombreado_service.Store.Lease.Exclusion.{
  Claimed, Recovered, claim_scrape_lease-Claimed, release_scrape_lease_lem,
}
use sombreado_service.Store.Runs.{prune_scrape_runs}
use sombreado_service.Store.Runs.Retention.{Pruned, prune_scrape_runs-Pruned}

abbrev generation : Text → Status → DatasetGenerationRecord
generation g s = record { id = g; status = s; created_at = 100; validated_at = none }

abbrev route : RouteRecord
route = record {
  id = 10;
  code = 110;
  name = 111;
  slug = 112;
  category = none;
  fare_region = none;
  last_changed = none;
  is_current = 1;
}

abbrev version : RouteVersionRecord
version = record {
  id = 20;
  route_id = 10;
  source_hash = 120;
  map_hash = none;
  page_url = 121;
  map_url = none;
  is_current = 1;
}

abbrev member : Text → DatasetRouteVersionRecord
member g = record { generation_id = g; route_id = 10; route_version_id = 20 }

abbrev counts_of : Text → GenerationCounts
counts_of g = record {
  generation_id = g;
  route_versions = 1;
  route_directions = 0;
  service_directions = 0;
  route_segments = 0;
}

abbrev lease : Lease
lease = record { holder_id = 7; claimed_at = 100; expires_at = 200 }

abbrev run : Text → ℕ → ScrapeRun
run i at = record {
  id = i;
  started_at = at;
  finished_at = at;
  outcome = RunOutcome.failed;
  generation_id = none;
  route_count = 0;
  warning_count = 0;
  error_summary = none;
}

abbrev pub world : Db
world = record empty {
  routes = route ∷ [];
  route_versions = version ∷ [];
  generations = generation 1 published ∷ generation 2 validated ∷ generation 3 staging ∷ [];
  members = member 1 ∷ member 2 ∷ member 3 ∷ [];
  counts = counts_of 1 ∷ counts_of 2 ∷ counts_of 3 ∷ [];
  current = some 1;
  lease = some lease;
  scrape_runs = run 90 1000000 ∷ run 91 3000000 ∷ run 92 2000000 ∷ [];
}

pub world-constraints : satisfies_constraints world ≡ true
unfolding satisfies_constraints
world-constraints = refl

pub world-IsValid : IsValid world
world-IsValid = record {
  constraints = world-constraints;
  current_published = λ h e. ground (arith, e);
  previous_published = λ h e. ground (arith, e);
  published_pointed = λ h e. ground (arith, e);
  pointers_differ = λ h e. refl;
}

abbrev export : Export
export = record {
  routes = some (route ∷ []);
  route_versions = some (record version { id = 21 } ∷ []);
  route_directions = some [];
  service_directions = some [];
  route_segments = some [];
}

abbrev no_float : Codes → Option ℕ
no_float codes = none

publish-Published_example : Outcome (Published 2 world) world (publish 2 world)
publish-Published_example = publish-Published 2 world world-IsValid refl

Step-Serves_example : Serves world (publish 2 world).1
Step-Serves_example = Step-Serves (publishes 2 world) world-IsValid

abbrev reached : Db
reached = (publish 2 (claim_scrape_lease 8 250 1200 false world).1).1

steps : Reach world reached
steps =
    next (next here (claims 8 250 1200 false world))
      (publishes 2 (claim_scrape_lease 8 250 1200 false world).1)

Reach-IsValid_example : IsValid reached
Reach-IsValid_example = Reach-IsValid steps world-IsValid

stage-Staged_example : Outcome (Staged 4 300 world) world (stage no_float 4 300 export world)
stage-Staged_example = stage-Staged no_float 4 300 export world

validate-ValidateOutcome_example : ValidateOutcome 3 400 world (validate 3 400 world)
validate-ValidateOutcome_example = validate-ValidateOutcome 3 400 world world-constraints

discard_staging-Discarded_example : Outcome (Discarded 3 world) world (discard_staging 3 world)
discard_staging-Discarded_example = discard_staging-Discarded 3 world world-constraints

validate_generation_iff_example :
    (validate_generation 3 world ≡ ok (tt, world)) ↔ IsComplete 3 world
validate_generation_iff_example = validate_generation_iff 3 world

delete_generation-keeps_shared_example :
    Post (λ _ d. data_of 20 d ≡ data_of 20 world) (delete_generation 3 world)
delete_generation-keeps_shared_example = delete_generation-keeps_shared 3 20 world refl

delete_generation-clears_example : Post (λ _ d. Holds 20 IsCleared d) (delete_generation 3 world)
unfolding version_ids
delete_generation-clears_example = delete_generation-clears 3 20 world version_of_3
  where
    version_of_3 : elem 20 (version_ids 3 world) ≡ true
    version_of_3 = refl

delete_orphan_staging-Purged_example :
    Post (λ _ d. Purged none world d) (delete_orphan_staging none world)
delete_orphan_staging-Purged_example = delete_orphan_staging-Purged none world world-constraints

claim_scrape_lease-Claimed_example :
    Outcome (Claimed 8 250 1200 world) world (claim_scrape_lease 8 250 1200 false world)
claim_scrape_lease-Claimed_example =
    claim_scrape_lease-Claimed 8 250 1200 false world world-constraints

release_scrape_lease_lem_example :
    Outcome
      (λ d.
        (scrape_lease_holder d ≢ some 7)
        × ((l : Lease) → world.lease ≡ some l → l.holder_id ≢ 7 → d.lease ≡ some l)
        × Recovered world d
        × (satisfies_constraints d ≡ true))
      world
      (release_scrape_lease 7 world)
release_scrape_lease_lem_example = release_scrape_lease_lem 7 world

prune_scrape_runs-Pruned_example :
    Outcome (Pruned 2000000 1 world) world (prune_scrape_runs 2086400 1 1 world)
prune_scrape_runs-Pruned_example = prune_scrape_runs-Pruned 2086400 1 1 world

abbrev segment : Text → ℕ → SegmentRow
segment d n = record {
  id = n;
  route_version_id = 20;
  route_direction_id = d;
  sequence = n;
  source_segment_sequence = n;
  source_fraction_start = 0;
  source_fraction_end = 1;
  geometry = codes "LINESTRING(1 2, 3 4)";
  bearing_degrees = 90;
  distance_meters = 5;
  cumulative_distance_meters = 5;
}

abbrev float : Codes → Option ℕ
float [] = none
float (c ∷ s) = some (c - 48)

abbrev column : ℕ → AdviceSegment
column n = record {
  public_id = n;
  sequence = n;
  coordinates = (1, 2) ∷ (3, 4) ∷ [];
  bearing_degrees = 90;
  distance_meters = 5;
  cumulative_distance_meters = 5;
}

abbrev segment_rows : List SegmentRow
segment_rows = segment 30 2 ∷ segment 31 1 ∷ segment 30 1 ∷ []

abbrev columns : List (Text × List AdviceSegment)
columns = (30, column 1 ∷ column 2 ∷ []) ∷ (31, column 1 ∷ []) ∷ []

advice_segments_by_direction_lem_example :
    advice_segments_of float
      (sorted sequence_le (filter (λ s. s.route_direction_id == 30) segment_rows))
    ≡ some (get_or_nil 30 columns)
unfolding advice_segments_by_direction advice_groups advice_segments_of advice_segment grouped_from
    add_to_group sorted insert sequence_le linestring_coordinates
advice_segments_by_direction_lem_example =
    advice_segments_by_direction_lem float segment_rows columns 30 refl

abbrev returns : {A : Type 0} → Result A → Bool
returns (ok a) = true
returns (err e) = false

abbrev Shown : Type 0
Shown = Bool × Option Text × Option Text × List Text × List Text

-- Whether a call returned, the pointers, the generations and the versions.
abbrev shown : Result (Unit {0}) × Db → Shown
shown (r, db) = (
  returns r,
  db.current,
  db.previous,
  map (λ (g : DatasetGenerationRecord). g.id) db.generations,
  map (λ (v : RouteVersionRecord). v.id) db.route_versions,
)

-- The publication of generation 2 returns: it is current, 1 is previous, and 3 is gone with the
-- version that it shares kept.
published_world : shown (publish 2 world) ≡ (true, some 2, some 1, 1 ∷ 2 ∷ [], 20 ∷ [])
unfolding publish publish_rows retire_previous demote point_current point_previous set_published
    apply_generation_routes delete_orphan_staging delete_generation delete_pointers delete_counts
    delete_generation_routes delete_members delete_generations delete_version delete_version_data
    still_referenced version_ids orphans for_each execute transaction satisfies_constraints
published_world = refl

-- A staging and a validation return.
three_calls_return : returns (validate 4 400 (stage no_float 4 300 export world).1).0 ≡ true
unfolding validate validate_rows validate_generation check_generation counts_match count_directions
    count_services count_segments count_geoms count_invalid_members count_mismatches joined
    one_row_staging set_validated stage stage_rows validate_export_shape add_generation
    insert_staged_rows insert_routes insert_generation_routes insert_route_versions
    insert_route_directions insert_service_directions insert_segments segment_payload
    insert_membership insert_expected_counts expected_counts distinct_count add_route
    add_generation_route add_route_version add_member advice_segments_by_direction advice_groups
    grouped_from for_each execute transaction satisfies_constraints
three_calls_return = refl

claim_scrape_lease-excludes_example :
    (claim_scrape_lease 8 1000 300 false (write_lease 7 150 1350 world)
      ≡ (err (lease_held_by 7), write_lease 7 150 1350 world))
    × ((released : Db) × (release_scrape_lease 7 (write_lease 7 150 1350 world) ≡ (ok tt, released))
        × (claim_scrape_lease 8 1000 300 false released ≡ (
          ok tt,
          record released {
            lease = some (record { holder_id = 8; claimed_at = 1000; expires_at = 1300 });
          },
        )))
claim_scrape_lease-excludes_example =
    claim_scrape_lease-excludes 7 8 150 1000 1200 300 false world (write_lease 7 150 1350 world)
      world-constraints
      (claim_scrape_lease-returns 7 150 1200 world world-constraints (refl, omega arith))
      (λ p. ground (arith, p)) (omega arith)
