-- ===== src/Store/Lifecycle/Stage.antt =====
-- `stage` adds one staging generation and touches nothing that passengers read.
use sombreado_service.Base.{
  ℕ, ◌≡◌, refl, ap, ◌∙◌, true, Option, none, some, List, [], ◌∷◌, ◌++◌, ◌==◌, arith, if◌then◌else◌,
}
use mathlib.Core.Path.{subst}
use sombreado_service.Store.Errors.{Text, export_missing_tables}
use sombreado_service.Store.Schema.{
  Codes, Db, Status, staging, DatasetGenerationRecord, satisfies_constraints,
}
use sombreado_service.Store.Hoare.{Post, Post-weaken, Post-step, Checked}
use sombreado_service.Store.Tx.{transaction, err}
use sombreado_service.Store.Delete.{status_in}
use sombreado_service.Store.Writes.{
  Export, CanonicalRows, validate_export_shape, insert_staged_rows,
}
use sombreado_service.Store.Writes.Frame.{
  Untouched, Untouched-IsInsertFrame, Untouched-refl, insert_staged_rows-Keeps,
}
use sombreado_service.Store.Lifecycle.{add_generation, stage_rows, stage}
use sombreado_service.Store.Lifecycle.Invariant.{Distinct, Distinct-satisfies_constraints}
use sombreado_service.Store.Lifecycle.Publish.{Outcome, Outcome-transaction}

-- The state after `stage g`, from the state before it.
pub record Staged (g : Text) (created : ℕ) (before db : Db) : Type 0 where
  pub constraints : satisfies_constraints db ≡ true
  pub status :
      (h : Text)
      → status_in h db.generations
        ≡ (if g == h then some staging else status_in h before.generations)
  pub fresh : status_in g before.generations ≡ none
  pub untouched : Untouched g (add_generation g created before) db

status_in-append :
    (h : Text) (rs : List DatasetGenerationRecord) (r : DatasetGenerationRecord)
    → status_in h (rs ++ r ∷ []) ≡ (elim (status_in h rs) [
      | none ↦ (if r.id == h then some r.status else none)
      | some s ↦ some s
    ])
status_in-append h [] r = refl
status_in-append h (x ∷ rs) r = ground (arith, status_in-append h rs r)

Distinct-append :
    (rs : List DatasetGenerationRecord) (r : DatasetGenerationRecord)
    → Distinct (rs ++ r ∷ [])
    → status_in r.id rs ≡ none
Distinct-append [] r d = refl
Distinct-append (x ∷ rs) r d = ground (arith, Distinct-append rs r, status_in-append x.id rs r)

module _ (g : Text) (created : ℕ) (before db : Db)
    (sat : satisfies_constraints (add_generation g created before) ≡ true)
    (constraints : satisfies_constraints db ≡ true)
    (untouched : Untouched g (add_generation g created before) db) where
  staged_fresh : status_in g before.generations ≡ none
  unfolding add_generation
  staged_fresh =
      Distinct-append before.generations _
        (Distinct-satisfies_constraints (add_generation g created before) sat)

  staged_status :
      (h : Text)
      → status_in h db.generations
        ≡ (if g == h then some staging else status_in h before.generations)
  unfolding add_generation
  staged_status h =
      ap (status_in h) untouched.generations
      ∙ (status_in-append h before.generations _ ∙ merge (status_in h before.generations) refl)
    where
      merge :
          (o : Option Status)
          → status_in h before.generations ≡ o
          → (elim o [ none ↦ (if g == h then some staging else none) | some s ↦ some s ])
            ≡ (if g == h then some staging else o)
      merge none e = ground arith
      merge (some s) e =
          ground (arith, subst (λ x. status_in x before.generations ≡ none), staged_fresh)

  Staged_lem : Staged g created before db
  Staged_lem = record {
    constraints = constraints;
    status = staged_status;
    fresh = staged_fresh;
    untouched = untouched;
  }

stage_rows-Staged :
    (float : Codes → Option ℕ) (g : Text) (created : ℕ) (rows : CanonicalRows) (db : Db)
    → Post (λ _ d. Staged g created db d) (stage_rows float g created rows db)
unfolding stage_rows
stage_rows-Staged float g created rows db = Post-step _ (add_generation g created) _ db λ sat.
    Post-weaken (λ _ d. Checked (Untouched g (add_generation g created db)) d)
      (λ _ d. Staged g created db d) (insert_staged_rows float g rows (add_generation g created db))
      (λ _ d p. Staged_lem g created db d sat p.0 p.1)
      (insert_staged_rows-Keeps g (Untouched g (add_generation g created db))
        (Untouched-IsInsertFrame g (add_generation g created db)) float rows
        (add_generation g created db) (sat, Untouched-refl g (add_generation g created db)))

-- `stage` either raises and changes nothing, or adds one generation, staging and new, and leaves the
-- other generations, their members, the pointers, the lease and every route that was there.
pub stage-Staged :
    (float : Codes → Option ℕ) (g : Text) (created : ℕ) (rows : Export) (db : Db)
    → Outcome (Staged g created db) db (stage float g created rows db)
unfolding stage
stage-Staged float g created rows db = go (validate_export_shape rows)
  where
    go :
        (o : Option CanonicalRows)
        → Outcome (Staged g created db) db (elim o [
          | none ↦ (err export_missing_tables, db)
          | some complete ↦ transaction (stage_rows float g created complete) db
        ])
    go none = refl
    go (some complete) =
        Outcome-transaction (Staged g created db) (stage_rows float g created complete) db
          (stage_rows-Staged float g created complete db)
