-- ===== src/Store/Reach.antt =====
-- The store as a state machine: any sequence of its calls, each of which may raise, from a valid
-- state.
use sombreado_service.Base.{ℕ, ◌≡◌, refl, inl, inr, Bool, Option, none, some, ap}
use sombreado_service.Store.Errors.{Text}
use sombreado_service.Store.Schema.{Codes, Db, Status, staging, validated, published}
use sombreado_service.Store.Tx.{Result, ok, err}
use sombreado_service.Store.Delete.{status_in}
use sombreado_service.Store.Writes.{Export}
use sombreado_service.Store.Lifecycle.{stage, validate, publish, discard_staging}
use sombreado_service.Store.Lifecycle.Invariant.{IsValid}
use sombreado_service.Store.Lifecycle.Publish.{
  Published, Outcome, publish-Published, publish_refuses,
}
use sombreado_service.Store.Lifecycle.Stage.{Staged, stage-Staged}
use sombreado_service.Store.Lifecycle.Discard.{
  Discarded, ValidateOutcome, validate-ValidateOutcome, discard_staging-Discarded,
}
use sombreado_service.Store.Lifecycle.Serves.{
  Serves, Serves-same, Staged-Serves, Discarded-Serves, Validated-Serves, Published-Serves,
  Recovered-Serves,
}
use sombreado_service.Store.Schema.{ScrapeRun}
use sombreado_service.Store.Lease.{claim_scrape_lease, release_scrape_lease}
use sombreado_service.Store.Lease.Exclusion.{claim_scrape_lease-Claimed, release_scrape_lease_lem}
use sombreado_service.Store.Runs.{record_scrape_run, prune_scrape_runs}
use sombreado_service.Store.Runs.Retention.{record_scrape_run-Recovered, prune_scrape_runs-Pruned}

-- One call of the store. Each may raise.
pub data Step : Db → Db → Type 0 where
  stages :
      (float : Codes → Option ℕ) (g : Text) (created : ℕ) (rows : Export) (db : Db)
      → Step db (stage float g created rows db).1
  validates : (g : Text) (at : ℕ) (db : Db) → Step db (validate g at db).1
  publishes : (g : Text) (db : Db) → Step db (publish g db).1
  discards : (g : Text) (db : Db) → Step db (discard_staging g db).1
  claims :
      (holder : Text) (now ttl : ℕ) (force : Bool) (db : Db)
      → Step db (claim_scrape_lease holder now ttl force db).1
  releases : (holder : Text) (db : Db) → Step db (release_scrape_lease holder db).1
  records : (run : ScrapeRun) (db : Db) → Step db (record_scrape_run run db).1
  prunes :
      (now retention_days keep_last : ℕ) (db : Db)
      → Step db (prune_scrape_runs now retention_days keep_last db).1

-- Any sequence of calls, of any callers.
pub data Reach (start : Db) : Db → Type 0 where
  here : Reach start start
  next : {a b : Db} → Reach start a → Step a b → Reach start b

module _ (db : Db) (valid : IsValid db) where
  -- A transaction whose success serves, serves.
  Outcome-Serves :
      (P : Db → Type 0) (r : Result (Unit {0}) × Db)
      → ((d : Db) → P d → Serves db d)
      → Outcome P db r
      → Serves db r.1
  Outcome-Serves P (ok u, d) k h = k d h
  Outcome-Serves P (err e, d) k h = Serves-same db d valid h

  validate-Serves :
      (g : Text) (at : ℕ) (r : Result (Unit {0}) × Db) → ValidateOutcome g at db r → Serves db r.1
  validate-Serves g at (ok u, d) h = Validated-Serves g db d valid at h
  validate-Serves g at (err e, d) (inl h) = Serves-same db d valid h.0
  validate-Serves g at (err e, d) (inr h) = Discarded-Serves g db d valid h

  publish-Serves :
      (g : Text) (o : Option Status) → status_in g db.generations ≡ o → Serves db (publish g db).1
  publish-Serves g (some validated) e =
      Outcome-Serves (Published g db) (publish g db) (λ d. Published-Serves g db d valid e)
        (publish-Published g db valid e)
  publish-Serves g none e =
      Serves-same db (publish g db).1 valid (ap (λ r. r.1) (publish_refuses g db (λ p. cc (e, p))))
  publish-Serves g (some staging) e =
      Serves-same db (publish g db).1 valid (ap (λ r. r.1) (publish_refuses g db (λ p. cc (e, p))))
  publish-Serves g (some published) e =
      Serves-same db (publish g db).1 valid (ap (λ r. r.1) (publish_refuses g db (λ p. cc (e, p))))

-- From a valid state, whatever one call does, returning or raising: the invariant holds after it, a
-- current generation is there if one was, and the generation that was current is current or
-- previous, with the same members.
pub Step-Serves : {a b : Db} → Step a b → IsValid a → Serves a b
Step-Serves (stages float g created rows db) valid =
    Outcome-Serves db valid (Staged g created db) (stage float g created rows db)
      (λ d. Staged-Serves g db d valid created) (stage-Staged float g created rows db)
Step-Serves (validates g at db) valid =
    validate-Serves db valid g at (validate g at db)
      (validate-ValidateOutcome g at db valid.constraints)
Step-Serves (publishes g db) valid = publish-Serves db valid g (status_in g db.generations) refl
Step-Serves (discards g db) valid =
    Outcome-Serves db valid (Discarded g db) (discard_staging g db)
      (λ d. Discarded-Serves g db d valid) (discard_staging-Discarded g db valid.constraints)
Step-Serves (claims holder now ttl force db) valid =
    Outcome-Serves db valid _ (claim_scrape_lease holder now ttl force db)
      (λ d p. Recovered-Serves db d valid p.constraints p.recovered)
      (claim_scrape_lease-Claimed holder now ttl force db valid.constraints)
Step-Serves (releases holder db) valid =
    Outcome-Serves db valid _ (release_scrape_lease holder db)
      (λ d p. Recovered-Serves db d valid p.3 p.2) (release_scrape_lease_lem holder db)
Step-Serves (records run db) valid =
    Outcome-Serves db valid _ (record_scrape_run run db)
      (λ d p. Recovered-Serves db d valid p.1 p.0) (record_scrape_run-Recovered run db)
Step-Serves (prunes now retention_days keep_last db) valid =
    Outcome-Serves db valid _ (prune_scrape_runs now retention_days keep_last db)
      (λ d p. Recovered-Serves db d valid p.constraints p.recovered)
      (prune_scrape_runs-Pruned now retention_days keep_last db)

-- In every state that calls of the store reach from a valid one, the published generations are
-- exactly those that a pointer shows.
pub Reach-IsValid : {a b : Db} → Reach a b → IsValid a → IsValid b
Reach-IsValid here valid = valid
Reach-IsValid (next r st) valid = (Step-Serves st (Reach-IsValid r valid)).valid

pub Reach-trans : {a b c : Db} → Reach a b → Reach b c → Reach a c
Reach-trans r here = r
Reach-trans r (next q st) = next (Reach-trans r q) st
