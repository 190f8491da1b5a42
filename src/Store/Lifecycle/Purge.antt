-- ===== src/Store/Lifecycle/Purge.antt =====
-- `delete_orphan_staging` of src/sombreado/store/generation_writes.py: which generations it deletes.
use sombreado_service.Base.{
  ◌≡◌, ◌≢◌, ◌∙◌, ◌⊎◌, inl, inr, true, false, not, ◌&&◌, Option, none, some, ◌==◌, filter, elem,
  arith, Bool-cases, eq_of-==, ap, refl, sym, List,
}
use sombreado_service.Store.Errors.{Text}
use sombreado_service.Store.Schema.{
  Db, Status, staging, validated, published, satisfies_constraints,
}
use sombreado_service.Store.Hoare.{Post, Post-weaken}
use sombreado_service.Store.Validate.{members_of}
use sombreado_service.Store.Delete.{is_at, is_protected, status_in, orphans, delete_orphan_staging}
use sombreado_service.Store.Delete.Orphans.{Deleted, delete_orphan_staging-Deleted}
use sombreado_service.Store.Lifecycle.Invariant.{
  is_unpublished, elem-orphans, Distinct-satisfies_constraints,
}

-- A generation that is staging or validated, that no pointer shows, and that is not the one to keep.
pub record IsOrphan (keep : Option Text) (db : Db) (h : Text) : Type 0 where
  pub unpublished :
      (status_in h db.generations ≡ some staging) ⊎ (status_in h db.generations ≡ some validated)
  pub not_current : db.current ≢ some h
  pub not_previous : db.previous ≢ some h
  pub not_kept : keep ≢ some h

-- The orphans are gone; every other generation has its status, its members and its routes.
pub record Purged (keep : Option Text) (before db : Db) : Type 0 where
  pub current : db.current ≡ before.current
  pub previous : db.previous ≡ before.previous
  pub lease : db.lease ≡ before.lease
  pub scrape_runs : db.scrape_runs ≡ before.scrape_runs
  pub gone : (h : Text) → IsOrphan keep before h → status_in h db.generations ≡ none
  pub left :
      (h : Text)
      → ¬ IsOrphan keep before h
      → (status_in h db.generations ≡ status_in h before.generations)
        × (members_of h db ≡ members_of h before)
        × (filter (λ r. r.generation_id == h) db.generation_routes
            ≡ filter (λ r. r.generation_id == h) before.generation_routes)

is_at-false : (h : Text) (p : Option Text) → p ≢ some h → is_at h p ≡ false
is_at-false h none ne = refl
is_at-false h (some i) ne = elim (Bool-cases (i == h)) [
  | inl e ↦ absurd (ne (ap some (eq_of-== i h e)))
  | inr e ↦ e
]

is_at-differs : (h : Text) (p : Option Text) → is_at h p ≡ false → p ≢ some h
is_at-differs h none e = λ q. cc q
is_at-differs h (some i) e = λ q. ground (arith, q, e)

unpublished_status :
    (o : Option Status) → is_unpublished o ≡ true → (o ≡ some staging) ⊎ (o ≡ some validated)
unpublished_status (some staging) e = inl refl
unpublished_status (some validated) e = inr refl
unpublished_status (some published) e = absurd (cc e)
unpublished_status none e = absurd (cc e)

module _ (keep : Option Text) (db : Db) where
  abbrev orphan_ids : List Text
  orphan_ids = orphans (is_protected db.current db.previous keep) db.generations

  IsOrphan-elem :
      (h : Text)
      → (elem h orphan_ids ≡ (
          is_unpublished (status_in h db.generations)
          && not (is_protected db.current db.previous keep h)))
      → IsOrphan keep db h
      → elem h orphan_ids ≡ true
  IsOrphan-elem h e o =
      e
      ∙ rw
          (
            unpublished o.unpublished,
            is_at-false h db.current o.not_current,
            is_at-false h db.previous o.not_previous,
            is_at-false h keep o.not_kept,
          )
          refl
    where
      unpublished :
          (status_in h db.generations ≡ some staging)
            ⊎ (status_in h db.generations ≡ some validated)
          → is_unpublished (status_in h db.generations) ≡ true
      unpublished (inl e) = rw e refl
      unpublished (inr e) = rw e refl

  elem-IsOrphan :
      (h : Text)
      → (is_unpublished (status_in h db.generations)
          && not (is_protected db.current db.previous keep h))
        ≡ true
      → IsOrphan keep db h
  elem-IsOrphan h e = record {
    unpublished = unpublished_status (status_in h db.generations) (ground arith);
    not_current = is_at-differs h db.current (ground arith);
    not_previous = is_at-differs h db.previous (ground arith);
    not_kept = is_at-differs h keep (ground arith);
  }

  Purged-Deleted :
      (d : Db) → satisfies_constraints db ≡ true → Deleted orphan_ids db d → Purged keep db d
  Purged-Deleted d sat p = record {
    current = p.current;
    previous = p.previous;
    lease = p.lease;
    scrape_runs = p.scrape_runs;
    gone = λ h o. p.status h ∙ rw (IsOrphan-elem h (ids h) o) refl;
    left = λ h other.
        let out = not_elem h other (Bool-cases (elem h orphan_ids)) in
        (p.status h ∙ rw out refl, p.members h out, p.generation_routes h out);
  }
    where
      ids :
          (h : Text)
          → elem h orphan_ids ≡ (
              is_unpublished (status_in h db.generations)
              && not (is_protected db.current db.previous keep h))
      ids h =
          elem-orphans h (is_protected db.current db.previous keep) db.generations
            (Distinct-satisfies_constraints db sat)

      not_elem :
          (h : Text)
          → ¬ IsOrphan keep db h
          → (elem h orphan_ids ≡ true) ⊎ (elem h orphan_ids ≡ false)
          → elem h orphan_ids ≡ false
      not_elem h other (inl e) = absurd (other (elem-IsOrphan h (sym (ids h) ∙ e)))
      not_elem h other (inr e) = e

-- From a state that meets the constraints, when `delete_orphan_staging` returns, exactly the orphans are
-- gone: the generations that are staging or validated, that no pointer shows, and that are not the one to
-- keep. Every other generation has its status, its members and its routes, and the pointers, the lease and
-- the runs are as they were.
pub delete_orphan_staging-Purged :
    (keep : Option Text) (db : Db)
    → satisfies_constraints db ≡ true
    → Post (λ _ d. Purged keep db d) (delete_orphan_staging keep db)
delete_orphan_staging-Purged keep db sat =
    Post-weaken (λ _ d. Deleted (orphan_ids keep db) db d) (λ _ d. Purged keep db d)
      (delete_orphan_staging keep db) (λ _ d p. Purged-Deleted keep db d sat p)
      (delete_orphan_staging-Deleted keep db)
