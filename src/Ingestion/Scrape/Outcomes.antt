-- ===== src/Ingestion/Scrape/Outcomes.antt =====
-- What the outcome of a scrape says of the store.
use sombreado_service.Base.{ℕ, ◌≡◌, ◌≢◌, refl, sym, ◌∙◌, true, Option, none, some, List}
use mathlib.Core.Path.{subst}
use sombreado_service.Store.Errors.{Text, lease_held_by, scrape_failed}
use sombreado_service.Store.Schema.{Codes, Db, RunOutcome, satisfies_constraints}
use sombreado_service.Store.Tx.{Result, ok, err}
use sombreado_service.Store.Lifecycle.Invariant.{IsValid}
use sombreado_service.Store.Lifecycle.Publish.{Outcome}
use sombreado_service.Store.Lifecycle.Serves.{Recovered-Serves}
use sombreado_service.Store.Lease.{claim_scrape_lease, release_scrape_lease, scrape_lease_holder}
use sombreado_service.Store.Lease.Exclusion.{
  Recovered, claim_scrape_lease-Claimed, release_scrape_lease_lem,
}
use sombreado_service.Store.Runs.{record_scrape_run, prune_scrape_runs}
use sombreado_service.Store.Runs.Retention.{prune_scrape_runs-Pruned, record_scrape_run-Recovered}
use sombreado_service.Ingestion.Scrape.{
  Attempt, ScrapeOutcome, Ending, returned, raised, aborted, and_then, attempts, ScrapeCall, run_of,
  persist_run, return_after, persisted, end_with, released, lease_held_outcome, after_claim,
  run_scrape,
}
use sombreado_service.Ingestion.Scrape.Loop.{
  PointersKept, PointersKept-refl, PointersKept-trans, Says, EndsLoop, attempts-EndsLoop,
}

-- A call that changes nothing for passengers.
PointersKept-Recovered :
    (before db : Db)
    → IsValid before
    → Recovered before db × (satisfies_constraints db ≡ true)
    → PointersKept before db
PointersKept-Recovered before db valid h = record {
  valid = (Recovered-Serves before db valid h.1 h.0).valid;
  current = h.0.current;
  previous = h.0.previous;
}

Outcome-PointersKept :
    (P : Db → Type 0) (before : Db) (r : Result (Unit {0}) × Db)
    → IsValid before
    → ((d : Db) → P d → Recovered before d × (satisfies_constraints d ≡ true))
    → Outcome P before r
    → PointersKept before r.1
Outcome-PointersKept P before (ok u, d) valid k h = PointersKept-Recovered before d valid (k d h)
Outcome-PointersKept P before (err e, d) valid k h =
    subst (PointersKept before) (sym h) (PointersKept-refl before valid)

persist_run-PointersKept :
    (call : ScrapeCall) (o : ScrapeOutcome) (db : Db)
    → IsValid db
    → PointersKept db (persist_run call o db).1
unfolding persist_run
persist_run-PointersKept call o db valid = go (record_scrape_run (run_of call o) db) (
    Outcome-PointersKept _ db (record_scrape_run (run_of call o) db) valid (λ d h. h)
      (record_scrape_run-Recovered (run_of call o) db))
  where
    go :
        (r : Result (Unit {0}) × Db)
        → PointersKept db r.1
        → PointersKept db
            (and_then r (prune_scrape_runs call.pruned_at call.scrape_run_retention_days 30)).1
    go (err e, d) h = h
    go (ok u, d) h = PointersKept-trans db d _ h (
        Outcome-PointersKept _ d
          (prune_scrape_runs call.pruned_at call.scrape_run_retention_days 30 d) h.valid
          (λ x p. (p.recovered, p.constraints))
          (prune_scrape_runs-Pruned call.pruned_at call.scrape_run_retention_days 30 d))

-- The end of a scrape: what its outcome says; where the source raised, the pointers as they were;
-- where the store raised, the invariant.
abbrev pub EndsScrape : List Attempt → Db → Ending × Db → Type 0
EndsScrape tries before (returned o, d) = Says o.status o.generation_id tries before d
EndsScrape tries before (raised e, d) = IsValid d
EndsScrape tries before (aborted t, d) = PointersKept before d

Says-later :
    (s : RunOutcome) (g : Option Text) (tries : List Attempt) (before a b : Db)
    → PointersKept a b
    → Says s g tries before a
    → Says s g tries before b
Says-later RunOutcome.published (some g) tries before a b k h = (
  h.0,
  record {
    valid = k.valid;
    current = k.current ∙ h.1.current;
    previous = k.previous ∙ h.1.previous;
  },
)
Says-later RunOutcome.published none tries before a b k h = h
Says-later RunOutcome.failed g tries before a b k h = PointersKept-trans before a b h k
Says-later RunOutcome.lease_held g tries before a b k h = PointersKept-trans before a b h k

Says-IsValid :
    (s : RunOutcome) (g : Option Text) (tries : List Attempt) (before a : Db)
    → Says s g tries before a
    → IsValid a
Says-IsValid RunOutcome.published (some g) tries before a h = h.1.valid
Says-IsValid RunOutcome.published none tries before a h = absurd h
Says-IsValid RunOutcome.failed g tries before a h = h.valid
Says-IsValid RunOutcome.lease_held g tries before a h = h.valid

module _ (tries : List Attempt) (before : Db) where
  return_after-EndsScrape :
      (o : ScrapeOutcome) (db : Db) (r : Result (Unit {0}) × Db)
      → Says o.status o.generation_id tries before db
      → PointersKept db r.1
      → EndsScrape tries before (return_after o r)
  return_after-EndsScrape o db (ok u, d) h k =
      Says-later o.status o.generation_id tries before db d k h
  return_after-EndsScrape o db (err e, d) h k = k.valid

  persisted-EndsScrape :
      (call : ScrapeCall) (r : Ending × Db)
      → EndsLoop tries before r
      → EndsScrape tries before (persisted call r)
  unfolding persisted
  persisted-EndsScrape call (returned o, d) h =
      return_after-EndsScrape o d (persist_run call o d) h
        (persist_run-PointersKept call o d (Says-IsValid o.status o.generation_id tries before d h))
  persisted-EndsScrape call (raised e, d) h = h.valid
  persisted-EndsScrape call (aborted t, d) h = h

  EndsScrape-IsValid : (r : Ending × Db) → EndsScrape tries before r → IsValid r.1
  EndsScrape-IsValid (returned o, d) h = Says-IsValid o.status o.generation_id tries before d h
  EndsScrape-IsValid (raised e, d) h = h
  EndsScrape-IsValid (aborted t, d) h = h.valid

  EndsScrape-later :
      (e : Ending) (a b : Db)
      → PointersKept a b
      → EndsScrape tries before (e, a)
      → EndsScrape tries before (e, b)
  EndsScrape-later (returned o) a b k h = Says-later o.status o.generation_id tries before a b k h
  EndsScrape-later (raised e) a b k h = k.valid
  EndsScrape-later (aborted t) a b k h = PointersKept-trans before a b h k

  released-EndsScrape :
      (holder : Text) (r : Ending × Db)
      → EndsScrape tries before r
      → EndsScrape tries before (released holder r)
  unfolding released
  released-EndsScrape holder (e, d) h = go (release_scrape_lease holder d) (
      Outcome-PointersKept _ d (release_scrape_lease holder d) (EndsScrape-IsValid (e, d) h)
        (λ x p. (p.2, p.3)) (release_scrape_lease_lem holder d))
    where
      go :
          (q : Result (Unit {0}) × Db) → PointersKept d q.1 → EndsScrape tries before (end_with e q)
      go (ok u, x) k = EndsScrape-later e d x k h
      go (err y, x) k = k.valid

  after_claim-EndsScrape :
      (float : Codes → Option ℕ) (call : ScrapeCall) (r : Result (Unit {0}) × Db)
      → PointersKept before r.1
      → EndsScrape tries before (after_claim float call tries r)
  unfolding after_claim
  after_claim-EndsScrape float call (ok u, d) k =
      released-EndsScrape call.holder (persisted call (attempts float tries scrape_failed 0 0 d)) (
        persisted-EndsScrape call (attempts float tries scrape_failed 0 0 d)
          (attempts-EndsLoop float before tries scrape_failed 0 0 d k))
  after_claim-EndsScrape float call (err (lease_held_by other), d) k =
      return_after-EndsScrape (lease_held_outcome other) d
        (persist_run call (lease_held_outcome other) d) k
        (persist_run-PointersKept call (lease_held_outcome other) d k.valid)
  after_claim-EndsScrape float call (err e, d) k = k.valid

-- From a valid store: a scrape that returns "published" collected that generation without hard
-- failures, made it current and the old current one previous; one that returns "failed" or
-- "lease_held", or that an exception of the source ends, leaves both pointers; and however it ends,
-- the invariant holds.
pub run_scrape-EndsScrape :
    (float : Codes → Option ℕ) (call : ScrapeCall) (tries : List Attempt) (db : Db)
    → IsValid db
    → EndsScrape tries db (run_scrape float call tries db)
unfolding run_scrape
run_scrape-EndsScrape float call tries db valid =
    after_claim-EndsScrape tries db float call
      (claim_scrape_lease call.holder call.claimed_at call.lease_ttl_seconds call.force db)
      (Outcome-PointersKept _ db
        (claim_scrape_lease call.holder call.claimed_at call.lease_ttl_seconds call.force db) valid
        (λ d p. (p.recovered, p.constraints))
        (claim_scrape_lease-Claimed call.holder call.claimed_at call.lease_ttl_seconds call.force db
          valid.constraints))

-- The lease is not left with the holder, unless the store raised or another has it.
abbrev pub LeavesLease : Text → Ending × Db → Type 0
LeavesLease holder (returned o, d) =
    o.status ≢ RunOutcome.lease_held → scrape_lease_holder d ≢ some holder
LeavesLease holder (raised e, d) = Unit
LeavesLease holder (aborted t, d) = scrape_lease_holder d ≢ some holder

released-LeavesLease : (holder : Text) (r : Ending × Db) → LeavesLease holder (released holder r)
unfolding released
released-LeavesLease holder (e, d) =
    go _ (λ x p. p.0) e (release_scrape_lease holder d) (release_scrape_lease_lem holder d)
  where
    go :
        (P : Db → Type 0)
        → ((x : Db) → P x → scrape_lease_holder x ≢ some holder)
        → (e : Ending) (q : Result (Unit {0}) × Db) → Outcome P d q
        → LeavesLease holder (end_with e q)
    go P k (returned o) (ok u, x) h = λ _. k x h
    go P k (raised y) (ok u, x) h = tt
    go P k (aborted t) (ok u, x) h = k x h
    go P k e (err y, x) h = tt

return_after-LeavesLease :
    (holder other : Text) (r : Result (Unit {0}) × Db)
    → LeavesLease holder (return_after (lease_held_outcome other) r)
return_after-LeavesLease holder other (ok u, d) = λ ne. absurd (ne refl)
return_after-LeavesLease holder other (err e, d) = tt

-- A scrape that returns "published" or "failed", or that an exception of the source ends, has given
-- up its lease.
pub run_scrape-LeavesLease :
    (float : Codes → Option ℕ) (call : ScrapeCall) (tries : List Attempt) (db : Db)
    → LeavesLease call.holder (run_scrape float call tries db)
unfolding run_scrape after_claim
run_scrape-LeavesLease float call tries db =
    go (claim_scrape_lease call.holder call.claimed_at call.lease_ttl_seconds call.force db)
  where
    go : (r : Result (Unit {0}) × Db) → LeavesLease call.holder (after_claim float call tries r)
    go (ok u, d) =
        released-LeavesLease call.holder (persisted call (attempts float tries scrape_failed 0 0 d))
    go (err (lease_held_by other), d) =
        return_after-LeavesLease call.holder other (persist_run call (lease_held_outcome other) d)
    go (err e, d) = tt
