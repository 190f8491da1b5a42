-- ===== src/Store/Runs.antt =====
-- Scrape-run metadata, src/sombreado/store/generation.py: `record_scrape_run` and
-- `prune_scrape_runs`.
pub mod Retention
use sombreado_service.Base.{
  drop, ℕ, ◌+◌, ◌-◌, ◌*◌, Bool, not, Option, List, [], ◌∷◌, ◌++◌, map, ◌==◌, filter, elem, leb, ltb,
}
use sombreado_service.Base.Order.{sorted}
use sombreado_service.Store.Errors.{Text}
use sombreado_service.Store.Schema.{Db, ScrapeRun}
use sombreado_service.Store.Tx.{Tx, Method, pure, query, when, execute, ◌>>=◌, ◌>>◌, transaction}

unfoldable pub add_run : ScrapeRun → Db → Db
add_run run db = record db { scrape_runs = db.scrape_runs ++ run ∷ [] }

unfoldable pub record_scrape_run : ScrapeRun → Method Unit
record_scrape_run run = transaction (execute (add_run run))

-- DELETE FROM scrape_runs WHERE started_at < cutoff
unfoldable pub drop_older : ℕ → Db → Db
drop_older cutoff db = record db {
  scrape_runs = filter (λ r. not (ltb r.started_at cutoff)) db.scrape_runs;
}

-- SELECT id ... ORDER BY started_at DESC OFFSET keep_last
unfoldable pub excess_of : ℕ → Db → List Text
excess_of keep_last db =
    map (λ r. r.id) (drop keep_last (sorted (λ a b. leb b.started_at a.started_at) db.scrape_runs))

-- DELETE FROM scrape_runs WHERE id = ANY(ids)
unfoldable pub drop_runs : List Text → Db → Db
drop_runs ids db = record db { scrape_runs = filter (λ r. not (elem r.id ids)) db.scrape_runs }

-- `if excess:` in front of the second DELETE.
unfoldable pub drop_excess : List Text → Tx Unit
drop_excess [] = pure tt
drop_excess (i ∷ ids) = execute (drop_runs (i ∷ ids))

unfoldable pub prune_rows : ℕ → ℕ → Tx Unit
prune_rows cutoff keep_last = do
  execute (drop_older cutoff)
  excess ← query (excess_of keep_last)
  drop_excess excess

-- `prune_scrape_runs`; `now` is `datetime.now(UTC)`, and a day has 86400 seconds.
unfoldable pub prune_scrape_runs : ℕ → ℕ → ℕ → Method Unit
prune_scrape_runs now retention_days keep_last =
    transaction (prune_rows (now - retention_days * 86400) keep_last)
