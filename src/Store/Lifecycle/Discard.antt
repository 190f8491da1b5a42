-- ===== src/Store/Lifecycle/Discard.antt =====
-- `discard_staging` and `validate`: a generation that fails validation does not linger.
use sombreado_service.Base.{
  ℕ, ◌≡◌, ◌≢◌, refl, sym, ap, ◌∙◌, ◌⊎◌, inl, inr, true, false, not, ◌||◌, Option, none, some, List,
  [], ◌∷◌, ◌==◌, arith, if◌then◌else◌, Bool-cases, eq_of-==,
}
use mathlib.Core.Path.{subst}
use sombreado_service.Store.Errors.{Text, StoreError, generation_is_not_staging}
use sombreado_service.Store.Schema.{
  Db, Status, staging, validated, published, DatasetGenerationRecord, satisfies_constraints,
}
use sombreado_service.Store.Hoare.{Post, Post-bind, Post-weaken, Post-step, Post-of-eq}
use sombreado_service.Store.Tx.{Tx, execute, transaction, Result, ok, err, raise_if, ◌>>◌}
use sombreado_service.Store.Delete.{is_at, status_in, unpublished, delete_generation}
use sombreado_service.Store.Delete.Frame.{
  lifecycle, delete_rows, delete_generation-lifecycle, delete_generation-satisfies,
}
use sombreado_service.Store.Delete.Orphans.{Deleted, delete_generation-Deleted}
use sombreado_service.Store.Validate.{validate_generation}
use sombreado_service.Store.Validate.Complete.{IsComplete, validate_generation-passes}
use sombreado_service.Store.Lifecycle.{
  discard_found, discard_rows, discard_staging, discard_after, raise_again, mark_validated,
  set_validated, one_row_staging, validate_rows, validate,
}
use sombreado_service.Store.Lifecycle.Publish.{Outcome, Outcome-transaction}

-- What `discard_staging g` leaves: no generation `g`, and everything else of the lifecycle.
pub record Discarded (g : Text) (before db : Db) : Type 0 where
  pub constraints : satisfies_constraints db ≡ true
  pub unpublished : status_in g before.generations ≢ some published
  pub deleted : Deleted (g ∷ []) before db

Discarded-absent :
    (g : Text) (db : Db)
    → satisfies_constraints db ≡ true
    → status_in g db.generations ≡ none
    → Discarded g db db
Discarded-absent g db sat e = record {
  constraints = sat;
  unpublished = λ p. cc (p, e);
  deleted = record {
    current = refl;
    previous = refl;
    lease = refl;
    scrape_runs = refl;
    status = λ h. absent h (status_in h db.generations) refl;
    members = λ h ne. refl;
    generation_routes = λ h ne. refl;
  };
}
  where
    absent :
        (h : Text) (o : Option Status)
        → status_in h db.generations ≡ o
        → o ≡ (if g == h || false then none else o)
    absent h o p = elim (Bool-cases (g == h)) [
      | inl q ↦ rw q (sym p ∙ subst (λ x. status_in x db.generations ≡ none) (eq_of-== g h q) e)
      | inr q ↦ rw q refl
    ]

-- Two facts of one result.
Post-both {ℓ κ} :
    {A : Type 0} (Q : A → Db → Type ℓ) (R : A → Db → Type κ) (r : Result (A × Db))
    → Post Q r
    → Post R r
    → Post (λ a d. Q a d × R a d) r
Post-both Q R (ok (a, d)) p q = (p, q)
Post-both Q R (err e) p q = tt

deletes :
    (g : Text) (db : Db)
    → (is_at g db.current || is_at g db.previous) ≡ false
    → status_in g db.generations ≢ some published
    → Post (λ _ d. Discarded g db d) (delete_generation g db)
deletes g db e unpublished =
    Post-weaken
      (λ _ d. (satisfies_constraints d ≡ true) × (lifecycle d ≡ lifecycle (delete_rows g db)))
      (λ _ d. Discarded g db d) (delete_generation g db)
      (λ _ d p. record {
        constraints = p.0;
        unpublished = unpublished;
        deleted = delete_generation-Deleted g db d (ground arith, ground arith) p.1;
      })
      (Post-both (λ _ d. satisfies_constraints d ≡ true)
        (λ _ d. lifecycle d ≡ lifecycle (delete_rows g db)) (delete_generation g db)
        (delete_generation-satisfies g db) (delete_generation-lifecycle g db))

discard_found-Discarded :
    (g : Text) (db : Db)
    → satisfies_constraints db ≡ true
    → (s : Option Status) → status_in g db.generations ≡ s
    → Post (λ _ d. Discarded g db d) (discard_found g s db)
unfolding discard_found
discard_found-Discarded g db sat none e = Discarded-absent g db sat e
discard_found-Discarded g db sat (some published) e = tt
discard_found-Discarded g db sat (some s) e =
    elim (Bool-cases (is_at g db.current || is_at g db.previous)) [
      | inl p ↦ rw p tt
      | inr p ↦ rw p (deletes g db p (λ q. cc (q, e)))
    ]

discard_rows-Discarded :
    (g : Text) (db : Db)
    → satisfies_constraints db ≡ true
    → Post (λ _ d. Discarded g db d) (discard_rows g db)
unfolding discard_rows
discard_rows-Discarded g db sat = discard_found-Discarded g db sat (status_in g db.generations) refl

-- From a state that meets the constraints, `discard_staging` raises and changes nothing, or the
-- generation was not published and is gone, and the rest of the lifecycle is as it was.
pub discard_staging-Discarded :
    (g : Text) (db : Db)
    → satisfies_constraints db ≡ true
    → Outcome (Discarded g db) db (discard_staging g db)
unfolding discard_staging
discard_staging-Discarded g db sat =
    Outcome-transaction (Discarded g db) (discard_rows g) db (discard_rows-Discarded g db sat)

-- A generation found staging is validated.
abbrev pub validate_status : Option Status → Option Status
validate_status (some staging) = some validated
validate_status (some validated) = some validated
validate_status (some published) = some published
validate_status none = none

status_in-mark_validated :
    (g h : Text) (at : ℕ) (rs : List DatasetGenerationRecord)
    → status_in h (mark_validated g at rs)
      ≡ (if g == h then validate_status (status_in h rs) else status_in h rs)
status_in-mark_validated g h at [] = ground arith
status_in-mark_validated g h at (r ∷ rs) = ground (arith, status_in-mark_validated g h at rs)

-- The state after a `validate g` that returns.
pub record Validated (g : Text) (at : ℕ) (before db : Db) : Type 0 where
  pub constraints : satisfies_constraints db ≡ true
  pub complete : IsComplete g before
  pub marked : db ≡ set_validated g at before
  pub status :
      (h : Text)
      → status_in h db.generations
        ≡ (if g == h then some validated else status_in h before.generations)

module _ (g : Text) (at : ℕ) (db : Db) where
  mark : Db → Tx (Unit {0})
  mark d =
      execute (set_validated g at)
      >> raise_if (not (one_row_staging g d)) (generation_is_not_staging g)

  marked_lem : IsComplete g db → Post (λ _ d. Validated g at db d) (mark db db)
  unfolding mark set_validated
  marked_lem c = Post-step _ (set_validated g at) _ db λ sat.
      elim (Bool-cases (one_row_staging g db)) [
        | inl e ↦ rw e (record {
          constraints = sat;
          complete = c;
          marked = refl;
          status = λ h.
              status_in-mark_validated g h at db.generations ∙ here_staging h (Bool-cases (g == h));
        })
        | inr e ↦ rw e tt
      ]
    where
      here_staging :
          (h : Text)
          → ((g == h) ≡ true) ⊎ ((g == h) ≡ false)
          → (if g == h
              then validate_status (status_in h db.generations)
              else status_in h db.generations)
            ≡ (if g == h then some validated else status_in h db.generations)
      here_staging h (inl q) = rw q (
          subst (λ x. validate_status (status_in x db.generations) ≡ some validated)
            (eq_of-== g h q) (rw c.is_staged refl))
      here_staging h (inr q) = rw q refl

  validate_rows-Validated : Post (λ _ d. Validated g at db d) (validate_rows g at db)
  unfolding validate_rows mark
  validate_rows-Validated =
      Post-bind (λ _ d. (d ≡ db) × IsComplete g db) (λ _ d. Validated g at db d)
        (validate_generation g) _ db
        (Post-of-eq (λ _ d. (d ≡ db) × IsComplete g db) (validate_generation g db)
          (λ _ d h. validate_generation-passes g db d h))
        (λ _ d p.
          subst (λ x. Post (λ _ e. Validated g at db e) (mark x x)) (sym p.0) (marked_lem p.1))

  -- What a call of `validate` has done, by how it ended; `discard_staging` was called on `db`.
  abbrev pub ValidateOutcome : Result (Unit {0}) × Db → Type 0
  ValidateOutcome (ok u, d) = Validated g at db d
  ValidateOutcome (err e, d) =
      ((d ≡ db) × ((e' : StoreError) × (discard_staging g db ≡ (err e', db)))) ⊎ Discarded g db d

  raised :
      (e : StoreError) (r : Result (Unit {0}) × Db)
      → discard_staging g db ≡ r
      → Outcome (Discarded g db) db r
      → ValidateOutcome (raise_again e r)
  raised e (ok u, d) p h = inr h
  raised e (err e', d) p h = inl (h, (e', p ∙ ap (λ x. (err e', x)) h))

  discarded :
      satisfies_constraints db ≡ true
      → (r : Result (Unit {0}) × Db) → Outcome (Validated g at db) db r
      → ValidateOutcome (discard_after g r)
  discarded sat (ok u, d) h = h
  discarded sat (err e, d) h =
      subst (λ x. ValidateOutcome (raise_again e (discard_staging g x))) (sym h)
        (raised e (discard_staging g db) refl (discard_staging-Discarded g db sat))

-- From a state that meets the constraints, `validate` marks a complete generation as validated and
-- changes nothing else; or it raises, and then it has discarded the generation, or `discard_staging` of
-- it raises too and the state is as it was.
pub validate-ValidateOutcome :
    (g : Text) (at : ℕ) (db : Db)
    → satisfies_constraints db ≡ true
    → ValidateOutcome g at db (validate g at db)
unfolding validate
validate-ValidateOutcome g at db sat = discarded g at db sat (transaction (validate_rows g at) db) (
    Outcome-transaction (Validated g at db) (validate_rows g at) db
      (validate_rows-Validated g at db))
