-- ===== src/Ingestion/Scrape.antt =====
-- The scrape of src/sombreado/ingestion/scrape.py. The source is a parameter: what each attempt
-- collects, with the generation id and the times that `uuid4` and the clock give it. The pauses
-- between attempts and the migrations at the start are left out.
pub mod Loop
pub mod Outcomes
use sombreado_service.Base.{ℕ, Bool, true, false, Option, none, some, List, [], ◌∷◌, length}
use sombreado_service.Store.Errors.{
  Text, StoreError, integrity, bad_geometry, export_missing_tables, lease_held_by, Message,
  scrape_failed, published_text, collect_raised, store_raised, hard_failures,
  discard_staging_failed,
}
use sombreado_service.Store.Schema.{Codes, Db, RouteVersionRecord, RunOutcome, ScrapeRun}
use sombreado_service.Store.Tx.{Result, ok, err, Method}
use sombreado_service.Store.Writes.{Export}
use sombreado_service.Store.Lifecycle.{stage, validate, publish, discard_staging, has_generation}
use sombreado_service.Store.Lease.{claim_scrape_lease, release_scrape_lease}
use sombreado_service.Store.Runs.{record_scrape_run, prune_scrape_runs}

pub record ScrapeCollection : Type 0 where
  pub rows : Export
  pub hard_failures : List Text
  pub warnings : List Text

-- `source.collect()`: it returns, raises one of `_RETRYABLE_COLLECT_ERRORS`, or raises another.
pub data Collect : Type 0 where
  returns : ScrapeCollection → Collect
  raises_retryable : Text → Collect
  raises_other : Text → Collect

pub record Attempt : Type 0 where
  pub collect : Collect
  pub generation_id : Text
  pub created_at : ℕ
  pub validated_at : ℕ

pub record ScrapeOutcome : Type 0 where
  pub status : RunOutcome
  pub generation_id : Option Text
  pub message : Message
  pub route_count : ℕ
  pub warning_count : ℕ

-- How a scrape ends: with an outcome, an exception of the store, or one of the source.
pub data Ending : Type 0 where
  returned : ScrapeOutcome → Ending
  raised : StoreError → Ending
  aborted : Text → Ending

-- psycopg's errors and ValueError are no RuntimeError.
abbrev pub is_runtime_error : StoreError → Bool
is_runtime_error integrity = false
is_runtime_error bad_geometry = false
is_runtime_error export_missing_tables = false
is_runtime_error _ = true

-- `len(rows.get("route_versions", ()))`
abbrev pub route_count_of : Option (List RouteVersionRecord) → ℕ
route_count_of none = 0
route_count_of (some rows) = length rows

-- One call after another, unless an earlier one raised.
abbrev pub and_then : Result (Unit {0}) × Db → Method Unit → Result (Unit {0}) × Db
and_then (ok u, db) m = m db
and_then (err e, db) m = (err e, db)

unfoldable pub stage_validate_publish :
    (Codes → Option ℕ) → Attempt → ScrapeCollection → Method Unit
stage_validate_publish float a c db =
    and_then
      (and_then (stage float a.generation_id a.created_at c.rows db)
        (validate a.generation_id a.validated_at))
      (publish a.generation_id)

-- The `except` branch: what is left of the generation is discarded. `none` is the exception of a
-- discard that is no RuntimeError.
abbrev pub after_discard : StoreError → Result (Unit {0}) × Db → Result Message × Db
after_discard e (ok u, db) = (ok (store_raised e), db)
after_discard e (err e', db) = (
  elim (is_runtime_error e') [
    | true ↦ ok (discard_staging_failed (store_raised e) e')
    | false ↦ err e'
  ],
  db,
)

unfoldable pub clean_up : Text → StoreError → Db → Result Message × Db
clean_up g e db = elim (has_generation g db) [
  | true ↦ after_discard e (discard_staging g db)
  | false ↦ (ok (store_raised e), db)
]

-- One turn of the loop: `continue` with `last_error`, `route_count` and `warning_count`, or the end
-- of the loop.
pub data Turn : Type 0 where
  continues : Message → ℕ → ℕ → Turn
  ends : Ending → Turn

abbrev pub published_outcome : Attempt → ScrapeCollection → ScrapeOutcome
published_outcome a c = record {
  status = RunOutcome.published;
  generation_id = some a.generation_id;
  message = published_text;
  route_count = route_count_of c.rows.route_versions;
  warning_count = length c.warnings;
}

abbrev pub after_clean_up : ScrapeCollection → Result Message × Db → Turn × Db
after_clean_up c (ok m, db) =
    (continues m (route_count_of c.rows.route_versions) (length c.warnings), db)
after_clean_up c (err e, db) = (ends (raised e), db)

abbrev pub after_publish : Attempt → ScrapeCollection → Result (Unit {0}) × Db → Turn × Db
after_publish a c (ok u, db) = (ends (returned (published_outcome a c)), db)
after_publish a c (err e, db) = after_clean_up c (clean_up a.generation_id e db)

-- `if collection.hard_failures: ... continue`, and the three calls.
abbrev pub turn_of : (Codes → Option ℕ) → Attempt → ScrapeCollection → List Text → Db → Turn × Db
turn_of float a c [] db = after_publish a c (stage_validate_publish float a c db)
turn_of float a c (f ∷ fs) db = (
  continues (hard_failures (f ∷ fs)) (route_count_of c.rows.route_versions) (length c.warnings),
  db,
)

unfoldable pub turn : (Codes → Option ℕ) → Attempt → Collect → ℕ → ℕ → Db → Turn × Db
turn float a (returns c) route_count warning_count db = turn_of float a c c.hard_failures db
turn float a (raises_retryable t) route_count warning_count db =
    (continues (collect_raised t) route_count warning_count, db)
turn float a (raises_other t) route_count warning_count db = (ends (aborted t), db)

abbrev pub failed_outcome : Message → ℕ → ℕ → ScrapeOutcome
failed_outcome last_error route_count warning_count = record {
  status = RunOutcome.failed;
  generation_id = none;
  message = last_error;
  route_count = route_count;
  warning_count = warning_count;
}

-- `for attempt in range(max_attempts)`; the list has `max_attempts` items.
unfoldable pub attempts : (Codes → Option ℕ) → List Attempt → Message → ℕ → ℕ → Db → Ending × Db
attempts float [] last_error route_count warning_count db =
    (returned (failed_outcome last_error route_count warning_count), db)
attempts float (a ∷ rest) last_error route_count warning_count db =
    let (t, d) = turn float a a.collect route_count warning_count db in
    elim t [ continues m r w ↦ attempts float rest m r w d | ends e ↦ (e, d) ]

-- The arguments of `run_scrape`, and what the clock and `uuid4` give it. `holder` is `holder_id`, or
-- `scrape-` and the run's id where that is missing.
pub record ScrapeCall : Type 0 where
  pub holder : Text
  pub run_id : Text
  pub started_at : ℕ
  pub claimed_at : ℕ
  pub finished_at : ℕ
  pub pruned_at : ℕ
  pub lease_ttl_seconds : ℕ
  pub force : Bool
  pub scrape_run_retention_days : ℕ

-- `error_summary` is None for a published run.
abbrev pub error_summary_of : RunOutcome → Message → Option Message
error_summary_of RunOutcome.published m = none
error_summary_of RunOutcome.failed m = some m
error_summary_of RunOutcome.lease_held m = some m

abbrev pub run_of : ScrapeCall → ScrapeOutcome → ScrapeRun
run_of call o = record {
  id = call.run_id;
  started_at = call.started_at;
  finished_at = call.finished_at;
  outcome = o.status;
  generation_id = o.generation_id;
  route_count = o.route_count;
  warning_count = o.warning_count;
  error_summary = error_summary_of o.status o.message;
}

-- `_persist_run`, with the default `keep_last` of `prune_scrape_runs`.
unfoldable pub persist_run : ScrapeCall → ScrapeOutcome → Method Unit
persist_run call o db =
    and_then (record_scrape_run (run_of call o) db)
      (prune_scrape_runs call.pruned_at call.scrape_run_retention_days 30)

-- `_persist_run`, then `return outcome`.
abbrev pub return_after : ScrapeOutcome → Result (Unit {0}) × Db → Ending × Db
return_after o (ok u, db) = (returned o, db)
return_after o (err e, db) = (raised e, db)

unfoldable pub persisted : ScrapeCall → Ending × Db → Ending × Db
persisted call (returned o, db) = return_after o (persist_run call o db)
persisted call (raised e, db) = (raised e, db)
persisted call (aborted t, db) = (aborted t, db)

-- `finally: store.release_scrape_lease(holder)`
abbrev pub end_with : Ending → Result (Unit {0}) × Db → Ending × Db
end_with r (ok u, db) = (r, db)
end_with r (err e, db) = (raised e, db)

unfoldable pub released : Text → Ending × Db → Ending × Db
released holder (r, db) = end_with r (release_scrape_lease holder db)

abbrev pub lease_held_outcome : Text → ScrapeOutcome
lease_held_outcome other = record {
  status = RunOutcome.lease_held;
  generation_id = none;
  message = store_raised (lease_held_by other);
  route_count = 0;
  warning_count = 0;
}

unfoldable pub after_claim :
    (Codes → Option ℕ) → ScrapeCall → List Attempt → Result (Unit {0}) × Db → Ending × Db
after_claim float call tries (ok u, db) =
    released call.holder (persisted call (attempts float tries scrape_failed 0 0 db))
after_claim float call tries (err (lease_held_by other), db) =
    return_after (lease_held_outcome other) (persist_run call (lease_held_outcome other) db)
after_claim float call tries (err e, db) = (raised e, db)

unfoldable pub run_scrape : (Codes → Option ℕ) → ScrapeCall → List Attempt → Db → Ending × Db
run_scrape float call tries db =
    after_claim float call tries
      (claim_scrape_lease call.holder call.claimed_at call.lease_ttl_seconds call.force db)
