-- ===== src/Store/Lifecycle/Sweep.antt =====
-- The first half of `publish`: the previous generation and the orphans go, the validated generation
-- and the current one stay.
use sombreado_service.Base.{
  ◌≡◌, refl, ap, sym, ◌∙◌, true, false, not, ◌&&◌, ◌||◌, Option, none, some, ◌==◌, filter, arith,
  if◌then◌else◌, elem, eq_of-==,
}
use mathlib.Core.Path.{subst}
use sombreado_service.Store.Errors.{Text}
use sombreado_service.Store.Schema.{
  Db, validated, published, DatasetRouteVersionRecord, GenerationRoute,
}
use sombreado_service.Store.Hoare.{Post, Post-weaken}
use sombreado_service.Store.Delete.{is_at, status_in, is_protected, orphans, delete_generation}
use sombreado_service.Store.Delete.Frame.{lifecycle, delete_rows, delete_generation-lifecycle}
use sombreado_service.Store.Delete.Orphans.{Deleted, status_in-delete, filter_other}
use sombreado_service.Store.Lifecycle.{retire_previous}
use sombreado_service.Store.Lifecycle.Invariant.{
  IsValid, Distinct, Distinct-delete, Distinct-satisfies_constraints, is_unpublished, elem-orphans,
}

-- What `delete_generation` of the previous generation leaves.
pub record Retired (before db : Db) : Type 0 where
  pub current : db.current ≡ before.current
  pub previous : db.previous ≡ none
  pub lease : db.lease ≡ before.lease
  pub distinct : Distinct db.generations
  pub status :
      (h : Text)
      → status_in h db.generations
        ≡ (if is_at h before.previous then none else status_in h before.generations)
  pub members :
      (h : Text)
      → is_at h before.previous ≡ false
      → filter (λ m. m.generation_id == h) db.members
        ≡ filter (λ m. m.generation_id == h) before.members
  pub generation_routes :
      (h : Text)
      → is_at h before.previous ≡ false
      → filter (λ r. r.generation_id == h) db.generation_routes
        ≡ filter (λ r. r.generation_id == h) before.generation_routes

Retired-none : (db : Db) → Distinct db.generations → db.previous ≡ none → Retired db db
Retired-none db distinct e = record {
  current = refl;
  previous = e;
  lease = refl;
  distinct = distinct;
  status = λ h. rw e refl;
  members = λ h ne. refl;
  generation_routes = λ h ne. refl;
}

module _ (p : Text) (db d : Db) (distinct : Distinct db.generations) (e : db.previous ≡ some p)
    (unpointed : is_at p db.current ≡ false)
    (same : lifecycle d ≡ lifecycle (delete_rows p db)) where
  retired_previous : d.previous ≡ none
  unfolding delete_rows
  retired_previous = ap (λ x. x.previous) same ∙ ground arith

  retired_current : d.current ≡ db.current
  unfolding delete_rows
  retired_current = ap (λ x. x.current) same ∙ ground arith

  Retired-some : Retired db d
  unfolding delete_rows
  Retired-some = record {
    current = retired_current;
    previous = retired_previous;
    lease = ap (λ x. x.lease) same;
    distinct =
        subst Distinct (sym (ap (λ x. x.generations) same))
          (Distinct-delete p db.generations distinct);
    status = λ h.
        ap (λ x. status_in h x.generations) same
        ∙ (status_in-delete p h db.generations ∙ rw e refl);
    members = λ h ne.
        ap (λ x. filter (λ (m : DatasetRouteVersionRecord). m.generation_id == h) x.members) same
        ∙ filter_other (λ (m : DatasetRouteVersionRecord). m.generation_id) p h db.members
            (rw e at ne);
    generation_routes = λ h ne.
        ap (λ x. filter (λ (m : GenerationRoute). m.generation_id == h) x.generation_routes) same
        ∙ filter_other (λ (m : GenerationRoute). m.generation_id) p h db.generation_routes
            (rw e at ne);
  }

unpointed_previous :
    (p : Text) (c o : Option Text)
    → o ≡ some p
    → (is_at p c ≡ true → is_at p o ≡ false)
    → is_at p c ≡ false
unpointed_previous p c o e h = ground arith

pub retire_previous-Retired :
    (db : Db) → IsValid db → Post (λ _ d. Retired db d) (retire_previous db.current db.previous db)
unfolding retire_previous
retire_previous-Retired db valid = go db.previous refl
  where
    go :
        (o : Option Text)
        → db.previous ≡ o
        → Post (λ _ d. Retired db d) (retire_previous db.current o db)
    go none e = Retired-none db (Distinct-satisfies_constraints db valid.constraints) e
    go (some p) e =
        let unpointed : is_at p db.current ≡ false =
          unpointed_previous p db.current db.previous e (valid.pointers_differ p) in
        rw unpointed (
          Post-weaken (λ _ d. lifecycle d ≡ lifecycle (delete_rows p db)) (λ _ d. Retired db d)
            (delete_generation p db)
            (λ _ d same.
              Retired-some p db d (Distinct-satisfies_constraints db valid.constraints) e unpointed
                same)
            (delete_generation-lifecycle p db))

-- What the sweep leaves, when `g` is validated.
pub record Swept (g : Text) (before db : Db) : Type 0 where
  pub current : db.current ≡ before.current
  pub previous : db.previous ≡ none
  pub lease : db.lease ≡ before.lease
  pub status :
      (h : Text)
      → status_in h db.generations ≡ (
          if g == h
          then some validated
          else if is_at h before.current
          then some published
          else none)
  pub members :
      (h : Text)
      → (g == h || is_at h before.current) ≡ true
      → filter (λ m. m.generation_id == h) db.members
        ≡ filter (λ m. m.generation_id == h) before.members
  pub generation_routes :
      (h : Text)
      → (g == h || is_at h before.current) ≡ true
      → filter (λ r. r.generation_id == h) db.generation_routes
        ≡ filter (λ r. r.generation_id == h) before.generation_routes

module _ (g : Text) (a b c : Db) (valid : IsValid a)
    (is_validated : status_in g a.generations ≡ some validated) (r : Retired a b)
    (s : Deleted (orphans (is_protected b.current b.previous (some g)) b.generations) b c) where
  status_at : (h : Text) → (g == h) ≡ true → status_in h a.generations ≡ some validated
  status_at h e =
      subst (λ x. status_in x a.generations ≡ some validated) (eq_of-== g h e) is_validated

  -- The generations that stay are not the previous one, and no orphans.
  stays-previous : (h : Text) → (g == h || is_at h a.current) ≡ true → is_at h a.previous ≡ false
  stays-previous h e =
      ground (arith, status_at h, valid.previous_published h, valid.pointers_differ h)

  orphan_test :
      (h : Text)
      → elem h (orphans (is_protected b.current b.previous (some g)) b.generations)
        ≡ (is_unpublished (status_in h b.generations) && not (is_at h a.current || false || g == h))
  orphan_test h =
      elem-orphans h (is_protected b.current b.previous (some g)) b.generations r.distinct
      ∙ rw (r.current, r.previous) refl

  swept_status :
      (h : Text)
      → status_in h c.generations
        ≡ (if g == h then some validated else if is_at h a.current then some published else none)
  swept_status h = ground (
    arith,
    s.status h,
    orphan_test h,
    r.status h,
    status_at h,
    valid.current_published h,
    valid.previous_published h,
    valid.published_pointed h,
    valid.pointers_differ h,
  )

  stays-orphan :
      (h : Text)
      → (g == h || is_at h a.current) ≡ true
      → elem h (orphans (is_protected b.current b.previous (some g)) b.generations) ≡ false
  stays-orphan h e = ground (arith, orphan_test h)

  pub Swept_lem : Swept g a c
  Swept_lem = record {
    current = s.current ∙ r.current;
    previous = s.previous ∙ r.previous;
    lease = s.lease ∙ r.lease;
    status = swept_status;
    members = λ h e. s.members h (stays-orphan h e) ∙ r.members h (stays-previous h e);
    generation_routes = λ h e.
        s.generation_routes h (stays-orphan h e) ∙ r.generation_routes h (stays-previous h e);
  }
