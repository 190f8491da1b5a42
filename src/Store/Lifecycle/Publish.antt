-- ===== src/Store/Lifecycle/Publish.antt =====
-- `publish`: its whole effect on the lifecycle, and that it keeps the invariant.
use sombreado_service.Base.{
  ◌≡◌, ◌≢◌, refl, ap, sym, ◌∙◌, true, false, ◌||◌, List, [], ◌∷◌, Option, none, some, ◌==◌, filter,
  arith, if◌then◌else◌, Bool-cases, inl, inr, eq_of-==,
}
use mathlib.Core.Path.{subst}
use sombreado_service.Store.Errors.{
  Text, StoreError, generation_does_not_exist, generation_is_not_validated,
}
use sombreado_service.Store.Schema.{
  Db, Status, staging, validated, published, DatasetGenerationRecord, satisfies_constraints,
}
use sombreado_service.Store.Hoare.{Post, Post-bind, Post-step, Post-execute}
use sombreado_service.Store.Tx.{Tx, Result, ok, err, execute, transaction, ◌>>◌}
use sombreado_service.Store.Delete.{is_at, is_protected, orphans, status_in, delete_orphan_staging}
use sombreado_service.Store.Delete.Orphans.{Deleted, delete_orphan_staging-Deleted}
use sombreado_service.Store.Lifecycle.{
  retire_previous, demote, publish_rows, publish, mark_published, set_published, point_current,
  point_previous, clear_previous, apply_generation_routes,
}
use sombreado_service.Store.Lifecycle.Invariant.{IsValid}
use sombreado_service.Store.Lifecycle.Sweep.{Retired, Swept, Swept_lem, retire_previous-Retired}

abbrev pub publish_status : Option Status → Option Status
publish_status none = none
publish_status (some _) = some published

pub status_in-mark_published :
    (g h : Text) (rs : List DatasetGenerationRecord)
    → status_in h (mark_published g rs)
      ≡ (if g == h then publish_status (status_in h rs) else status_in h rs)
status_in-mark_published g h [] = ground arith
status_in-mark_published g h (r ∷ rs) = ground (arith, status_in-mark_published g h rs)

-- The state after `publish g`, from the state before it.
pub record Published (g : Text) (before db : Db) : Type 0 where
  pub constraints : satisfies_constraints db ≡ true
  pub current : db.current ≡ some g
  pub previous : db.previous ≡ before.current
  pub lease : db.lease ≡ before.lease
  pub status :
      (h : Text)
      → status_in h db.generations
        ≡ (if g == h || is_at h before.current then some published else none)
  pub members :
      (h : Text)
      → (g == h || is_at h before.current) ≡ true
      → filter (λ m. m.generation_id == h) db.members
        ≡ filter (λ m. m.generation_id == h) before.members

at_self : (c : Text) (o : Option Text) → o ≡ some c → is_at c o ≡ true
at_self c o e = ground arith

-- The statements behind the sweep, as one function of the state.
abbrev finish : Text → Option Text → Db → Db
finish g current db = set_published g (
    point_current g (elim current [
      | none ↦ apply_generation_routes g db
      | some c ↦ set_published c (point_previous c (apply_generation_routes g db))
    ]))

module _ (g : Text) (before db : Db) (valid : IsValid before)
    (is_validated : status_in g before.generations ≡ some validated) (s : Swept g before db) where
  finished :
      (current : Option Text)
      → before.current ≡ current
      → satisfies_constraints (finish g current db) ≡ true
      → Published g before (finish g current db)
  unfolding set_published point_current point_previous apply_generation_routes
  finished none e sat = record {
    constraints = sat;
    current = refl;
    previous = s.previous ∙ sym e;
    lease = s.lease;
    status = λ h. status_in-mark_published g h db.generations ∙ ground (arith, s.status h, e);
    members = s.members;
  }
  finished (some c) e sat = record {
    constraints = sat;
    current = refl;
    previous = sym e;
    lease = s.lease;
    status = λ h.
        status_in-mark_published g h (mark_published c db.generations)
        ∙ ground (arith, s.status h, status_in-mark_published c h db.generations, e);
    members = s.members;
  }

  tail :
      (x : Db)
      → (satisfies_constraints (set_published g (point_current g x)) ≡ true
          → Published g before (set_published g (point_current g x)))
      → Post
          (λ _ d. Published g before d)
          ((execute (point_current g) >> execute (set_published g)) x)
  tail x h =
      Post-step _ (point_current g) _ x
        λ _. Post-execute (λ _ d. Published g before d) (set_published g) (point_current g x) h

  -- The current generation is published, and so is not the validated one.
  current_differs : (c : Text) → before.current ≡ some c → (c == g) ≡ false
  current_differs c e = elim (Bool-cases (c == g)) [
    | inl p ↦ cc (
      ap (λ x. status_in x before.generations) (eq_of-== c g p),
      is_validated,
      valid.current_published c (at_self c before.current e),
    )
    | inr ne ↦ ne
  ]

  cleared : clear_previous (apply_generation_routes g db) ≡ apply_generation_routes g db
  unfolding clear_previous apply_generation_routes
  cleared = λ i. record (apply_generation_routes g db) { previous = sym s.previous i }

  demoted :
      (current previous : Option Text)
      → before.current ≡ current
      → Post
          (λ _ d. Published g before d)
          ((demote g current previous >> (execute (point_current g) >> execute (set_published g)))
            (apply_generation_routes g db))
  unfolding demote
  demoted none none e = tail (apply_generation_routes g db) (finished none e)
  demoted none (some p) e = Post-step _ clear_previous _ (apply_generation_routes g db) λ _.
      subst
        (λ x.
          Post (λ _ d. Published g before d)
            ((execute (point_current g) >> execute (set_published g)) x))
        (sym cleared) (tail (apply_generation_routes g db) (finished none e))
  demoted (some c) previous e = rw (current_differs c e) (
      Post-bind (λ _ d. d ≡ set_published c (point_previous c (apply_generation_routes g db)))
        (λ _ d. Published g before d) (execute (point_previous c) >> execute (set_published c))
        (λ _. execute (point_current g) >> execute (set_published g)) (apply_generation_routes g db)
        (Post-step _ (point_previous c) _ (apply_generation_routes g db)
          λ _. Post-execute _ (set_published c) _ (λ _. refl))
        (λ _ d p.
          subst
            (λ x.
              Post (λ _ d. Published g before d)
                ((execute (point_current g) >> execute (set_published g)) x))
            (sym p)
            (tail (set_published c (point_previous c (apply_generation_routes g db)))
              (finished (some c) e))))

publish_rows-Published :
    (g : Text) (db : Db)
    → IsValid db
    → status_in g db.generations ≡ some validated
    → Post (λ _ d. Published g db d) (publish_rows g db)
unfolding publish_rows
publish_rows-Published g db valid is_validated = rw is_validated (
    Post-bind (λ _ b. Retired db b) (λ _ d. Published g db d)
      (retire_previous db.current db.previous) _ db (retire_previous-Retired db valid)
      (λ _ b r.
        Post-bind
          (λ _ c. Deleted (orphans (is_protected b.current b.previous (some g)) b.generations) b c)
          (λ _ d. Published g db d) (delete_orphan_staging (some g)) _ b
          (delete_orphan_staging-Deleted (some g) b)
          (λ _ c s. Post-step _ (apply_generation_routes g) _ c λ _.
            demoted g db c valid is_validated (Swept_lem g db b c valid is_validated r s) db.current
              db.previous refl)))

-- The Method's result: what it leaves on success, and that a raise changes nothing.
abbrev pub Outcome : (Db → Type 0) → Db → Result (Unit {0}) × Db → Type 0
Outcome P before (ok u, d) = P d
Outcome P before (err e, d) = d ≡ before

pub Outcome-transaction :
    (P : Db → Type 0) (m : Tx (Unit {0})) (db : Db)
    → Post (λ _ d. P d) (m db)
    → Outcome P db (transaction m db)
unfolding transaction
Outcome-transaction P m db h = go (m db) h
  where
    go :
        (r : Result (Unit {0} × Db))
        → Post (λ _ d. P d) r
        → Outcome P db (elim r [ ok (a, d) ↦ (ok a, d) | err e ↦ (err e, db) ])
    go (ok (a, d)) q = q
    go (err e) q = refl

-- From a valid state, `publish` of a validated generation raises and changes nothing, or leaves
-- exactly the new generation as current and the old current one, if there was one, as previous, both
-- published and with their members as they were.
pub publish-Published :
    (g : Text) (db : Db)
    → IsValid db
    → status_in g db.generations ≡ some validated
    → Outcome (Published g db) db (publish g db)
unfolding publish
publish-Published g db valid e =
    Outcome-transaction (Published g db) (publish_rows g) db (publish_rows-Published g db valid e)

pub transaction-err :
    {A : Type 0} (m : Tx A) (db : Db) (e : StoreError)
    → m db ≡ err e
    → transaction m db ≡ (err e, db)
unfolding transaction
transaction-err {A} m db e h =
    ap {B = Result A × Db} (λ r. elim r [ ok (a, d) ↦ (ok a, d) | err e' ↦ (err e', db) ]) h

abbrev pub refusal : Text → Option Status → StoreError
refusal g none = generation_does_not_exist g
refusal g (some _) = generation_is_not_validated g

publish_rows-refuses :
    (g : Text) (db : Db) (o : Option Status)
    → status_in g db.generations ≡ o
    → o ≢ some validated
    → publish_rows g db ≡ err (refusal g o)
unfolding publish_rows
publish_rows-refuses g db none e ne = rw e refl
publish_rows-refuses g db (some staging) e ne = rw e refl
publish_rows-refuses g db (some validated) e ne = absurd (ne refl)
publish_rows-refuses g db (some published) e ne = rw e refl

-- A generation that is missing, staging or published cannot be published: `publish` raises the error
-- that says so, and changes nothing.
pub publish_refuses :
    (g : Text) (db : Db)
    → status_in g db.generations ≢ some validated
    → publish g db ≡ (err (refusal g (status_in g db.generations)), db)
unfolding publish
publish_refuses g db ne =
    transaction-err (publish_rows g) db (refusal g (status_in g db.generations))
      (publish_rows-refuses g db (status_in g db.generations) refl ne)
