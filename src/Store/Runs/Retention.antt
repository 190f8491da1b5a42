-- ===== src/Store/Runs/Retention.antt =====
-- What is left of the scrape runs after a pruning.
use sombreado_service.Base.{
  ℕ, ◌-◌, ◌*◌, ◌≤◌, ◌≡◌, refl, ap, Bool, true, not, List, [], ◌∷◌, map, filter, elem, leb, ltb, All,
  All-filter, count, length, drop, length-filter, count-drop, drop-all, filter-all, arith,
  Bool-cases, inl, inr,
}
use mathlib.Core.Path.{subst}
use sombreado_service.Base.Order.{sorted, count-sorted, length-sorted}
use sombreado_service.Store.Errors.{Text}
use sombreado_service.Store.Schema.{Db, ScrapeRun, satisfies_constraints}
use sombreado_service.Store.Hoare.{Post, Post-step, Post-execute}
use sombreado_service.Store.Lifecycle.Publish.{Outcome, Outcome-transaction}
use sombreado_service.Store.Lease.Exclusion.{Recovered}
use sombreado_service.Store.Tx.{execute}
use sombreado_service.Store.Runs.{
  add_run, record_scrape_run, drop_older, excess_of, drop_runs, drop_excess, prune_rows,
  prune_scrape_runs,
}

abbrev recent : ℕ → List ScrapeRun → List ScrapeRun
recent cutoff = filter (λ r. not (ltb r.started_at cutoff))

-- The rows after a pruning, from those before it: not older than the cutoff, at most `keep_last` of
-- them, and all recent ones where these are no more.
pub record Pruned (cutoff keep_last : ℕ) (before db : Db) : Type 0 where
  pub recent_only : All (λ r. not (ltb r.started_at cutoff) ≡ true) db.scrape_runs
  pub bounded : length db.scrape_runs ≤ keep_last
  pub kept :
      length (filter (λ r. not (ltb r.started_at cutoff)) before.scrape_runs) ≤ keep_last
      → db.scrape_runs ≡ filter (λ r. not (ltb r.started_at cutoff)) before.scrape_runs
  pub constraints : satisfies_constraints db ≡ true
  pub recovered : Recovered before db

abbrev newest_first : ScrapeRun → ScrapeRun → Bool
newest_first a b = leb b.started_at a.started_at

-- None of the dropped rows counts among those whose id is not dropped.
count-dropped :
    (xs : List ScrapeRun) (ids : List Text)
    → ((i : Text) → elem i (map (λ r. r.id) xs) ≡ true → elem i ids ≡ true)
    → count (λ r. not (elem r.id ids)) xs ≡ 0
count-dropped [] ids h = refl
count-dropped (x ∷ xs) ids h =
    rw (h x.id (ground arith)) (count-dropped xs ids (λ i e. h i (ground (arith, e))))

All-filter-All :
    (P : ScrapeRun → Type 0) (p : ScrapeRun → Bool) (xs : List ScrapeRun)
    → All P xs
    → All P (filter p xs)
All-filter-All P p [] h = tt
All-filter-All P p (x ∷ xs) h = elim (Bool-cases (p x)) [
  | inl e ↦ rw e (h.0, All-filter-All P p xs h.1)
  | inr e ↦ rw e (All-filter-All P p xs h.1)
]

-- The ids behind the first `n` of the ordered rows.
abbrev behind : ℕ → List ScrapeRun → List Text
behind n xs = map (λ r. r.id) (drop n (sorted (λ a b. leb b.started_at a.started_at) xs))

length-behind :
    (n : ℕ) (xs : List ScrapeRun) → length (filter (λ r. not (elem r.id (behind n xs))) xs) ≤ n
length-behind n xs = omega (arith, length-filter kept xs, count-sorted newest_first kept xs, least)
  where
    kept : ScrapeRun → Bool
    kept r = not (elem r.id (behind n xs))

    least : count kept (sorted newest_first xs) ≤ n
    least =
        count-drop kept n (sorted newest_first xs)
          (count-dropped (drop n (sorted newest_first xs)) (behind n xs) (λ i e. e))

behind-all : (n : ℕ) (xs : List ScrapeRun) → length xs ≤ n → behind n xs ≡ []
behind-all n xs h =
    ap (map (λ r. r.id))
      (drop-all n (sorted newest_first xs) (omega (arith, length-sorted newest_first xs)))

module _ (cutoff keep_last : ℕ) (db : Db) where
  abbrev rows : List ScrapeRun
  rows = filter (λ r. not (ltb r.started_at cutoff)) db.scrape_runs

  finished :
      (ids : List Text)
      → behind keep_last rows ≡ ids
      → satisfies_constraints (drop_older cutoff db) ≡ true
      → Post (λ _ d. Pruned cutoff keep_last db d) (drop_excess ids (drop_older cutoff db))
  unfolding drop_excess drop_older drop_runs
  finished [] e c = record {
    recent_only = All-filter _ db.scrape_runs;
    bounded =
        subst (λ xs. length xs ≤ keep_last) (filter-all (λ r. not (elem r.id [])) rows (λ a. refl))
          (subst (λ ids. length (filter (λ r. not (elem r.id ids)) rows) ≤ keep_last) e
            (length-behind keep_last rows));
    kept = λ _. refl;
    constraints = c;
    recovered = record {
      current = refl;
      previous = refl;
      kept = λ h e. (e, refl);
      only = λ h e. e;
    };
  }
  finished (i ∷ ids) e c = Post-execute _ (drop_runs (i ∷ ids)) (drop_older cutoff db) λ c'.
      record {
        recent_only = All-filter-All _ _ rows (All-filter _ db.scrape_runs);
        bounded =
            subst (λ ids. length (filter (λ r. not (elem r.id ids)) rows) ≤ keep_last) e
              (length-behind keep_last rows);
        kept = λ h. cc (e, behind-all keep_last rows h);
        constraints = c';
        recovered = record {
          current = refl;
          previous = refl;
          kept = λ h e. (e, refl);
          only = λ h e. e;
        };
      }

-- A pruning raises and changes nothing, or leaves the rows that `Pruned` describes.
pub prune_scrape_runs-Pruned :
    (now retention_days keep_last : ℕ) (db : Db)
    → Outcome
        (Pruned (now - retention_days * 86400) keep_last db)
        db
        (prune_scrape_runs now retention_days keep_last db)
unfolding prune_scrape_runs prune_rows excess_of drop_older
prune_scrape_runs-Pruned now retention_days keep_last db =
    Outcome-transaction _ (prune_rows (now - retention_days * 86400) keep_last) db (
      Post-step _ (drop_older (now - retention_days * 86400)) _ db
        λ c. finished (now - retention_days * 86400) keep_last db _ refl c)

pub record_scrape_run-Recovered :
    (run : ScrapeRun) (db : Db)
    → Outcome (λ d. Recovered db d × (satisfies_constraints d ≡ true)) db (record_scrape_run run db)
unfolding record_scrape_run add_run
record_scrape_run-Recovered run db = Outcome-transaction _ (execute (add_run run)) db (
    Post-execute _ (add_run run) db (λ c.
      (record { current = refl; previous = refl; kept = λ h e. (e, refl); only = λ h e. e }, c)))
