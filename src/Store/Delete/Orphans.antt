-- ===== src/Store/Delete/Orphans.antt =====
-- Deleting the orphan generations: what is left of the lifecycle's tables.
use sombreado_service.Base.{
  ◌≡◌, refl, ◌∙◌, ap, false, not, List, [], ◌∷◌, Option, none, ◌==◌, filter, arith, elem,
  if◌then◌else◌, All,
}
use sombreado_service.Store.Errors.{Text}
use sombreado_service.Store.Schema.{
  Db, DatasetGenerationRecord, DatasetRouteVersionRecord, GenerationRoute,
}
use sombreado_service.Store.Tx.{for_each}
use sombreado_service.Store.Hoare.{Post, Post-bind, Post-weaken}
use sombreado_service.Store.Delete.{
  is_at, is_protected, unless_at, status_in, delete_generation, delete_pointers, delete_counts,
  delete_generation_routes, delete_members, delete_generations, orphans, delete_orphan_staging,
}
use sombreado_service.Store.Delete.Frame.{lifecycle, delete_rows, delete_generation-lifecycle}

pub status_in-delete :
    (g h : Text) (rs : List DatasetGenerationRecord)
    → status_in h (filter (λ r. not (r.id == g)) rs) ≡ (if g == h then none else status_in h rs)
status_in-delete g h [] = ground arith
status_in-delete g h (r ∷ rs) = ground (arith, status_in-delete g h rs)

pub filter_other {ℓ} :
    {A : Type ℓ} (at : A → Text) (g h : Text) (xs : List A)
    → (g == h) ≡ false
    → filter (λ x. at x == h) (filter (λ x. not (at x == g)) xs) ≡ filter (λ x. at x == h) xs
filter_other at g h [] ne = refl
filter_other at g h (x ∷ xs) ne = ground (arith, filter_other at g h xs ne)

-- The generations `gone` are deleted and nothing else of the lifecycle has changed.
pub record Deleted (gone : List Text) (before db : Db) : Type 0 where
  pub current : db.current ≡ before.current
  pub previous : db.previous ≡ before.previous
  pub lease : db.lease ≡ before.lease
  pub scrape_runs : db.scrape_runs ≡ before.scrape_runs
  pub status :
      (h : Text)
      → status_in h db.generations ≡ (if elem h gone then none else status_in h before.generations)
  pub members :
      (h : Text)
      → elem h gone ≡ false
      → filter (λ m. m.generation_id == h) db.members
        ≡ filter (λ m. m.generation_id == h) before.members
  pub generation_routes :
      (h : Text)
      → elem h gone ≡ false
      → filter (λ r. r.generation_id == h) db.generation_routes
        ≡ filter (λ r. r.generation_id == h) before.generation_routes

abbrev IsUnpointed : Db → Text → Type 0
IsUnpointed db g = (is_at g db.current ≡ false) × (is_at g db.previous ≡ false)

unless_at-id : (g : Text) (p : Option Text) → is_at g p ≡ false → unless_at g p ≡ p
unless_at-id g p h = ground arith

-- One deletion.
pub delete_generation-Deleted :
    (g : Text) (db d : Db)
    → IsUnpointed db g
    → lifecycle d ≡ lifecycle (delete_rows g db)
    → Deleted (g ∷ []) db d
unfolding delete_rows delete_pointers delete_counts delete_generation_routes delete_members
    delete_generations
delete_generation-Deleted g db d u e = record {
  current = ap (λ x. x.current) e ∙ unless_at-id g db.current u.0;
  previous = ap (λ x. x.previous) e ∙ unless_at-id g db.previous u.1;
  lease = ap (λ x. x.lease) e;
  scrape_runs = ap (λ x. x.scrape_runs) e;
  status = λ h.
      ap (λ x. status_in h x.generations) e
      ∙ (status_in-delete g h db.generations ∙ (ground arith));
  members = λ h ne.
      ap (λ x. filter (λ (m : DatasetRouteVersionRecord). m.generation_id == h) x.members) e
      ∙ filter_other (λ (m : DatasetRouteVersionRecord). m.generation_id) g h db.members
          (ground arith);
  generation_routes = λ h ne.
      ap (λ x. filter (λ (m : GenerationRoute). m.generation_id == h) x.generation_routes) e
      ∙ filter_other (λ (m : GenerationRoute). m.generation_id) g h db.generation_routes
          (ground arith);
}

Deleted-trans :
    (g : Text) (gs : List Text) (a b c : Db)
    → Deleted (g ∷ []) a b
    → Deleted gs b c
    → Deleted (g ∷ gs) a c
Deleted-trans g gs a b c p q = record {
  current = q.current ∙ p.current;
  previous = q.previous ∙ p.previous;
  lease = q.lease ∙ p.lease;
  scrape_runs = q.scrape_runs ∙ p.scrape_runs;
  status = λ h. ground (arith, p.status h, q.status h);
  members = λ h ne. ground (arith, p.members h, q.members h);
  generation_routes = λ h ne. ground (arith, p.generation_routes h, q.generation_routes h);
}

Deleted-refl : (db : Db) → Deleted [] db db
Deleted-refl db = record {
  current = refl;
  previous = refl;
  lease = refl;
  scrape_runs = refl;
  status = λ h. refl;
  members = λ h ne. refl;
  generation_routes = λ h ne. refl;
}

IsUnpointed-Deleted :
    (gone gs : List Text) (a b : Db)
    → Deleted gone a b
    → All (IsUnpointed a) gs
    → All (IsUnpointed b) gs
IsUnpointed-Deleted gone [] a b p h = tt
IsUnpointed-Deleted gone (g ∷ gs) a b p h =
    ((rw p.current h.0.0, rw p.previous h.0.1), IsUnpointed-Deleted gone gs a b p h.1)

pub for_each-Deleted :
    (gs : List Text) (db : Db)
    → All (IsUnpointed db) gs
    → Post (λ _ d. Deleted gs db d) (for_each gs delete_generation db)
unfolding for_each
for_each-Deleted [] db h = Deleted-refl db
for_each-Deleted (g ∷ gs) db h =
    Post-bind (λ _ d. Deleted (g ∷ []) db d) (λ _ d. Deleted (g ∷ gs) db d) (delete_generation g)
      (λ _. for_each gs delete_generation) db
      (Post-weaken (λ _ d. lifecycle d ≡ lifecycle (delete_rows g db))
        (λ _ d. Deleted (g ∷ []) db d) (delete_generation g db)
        (λ _ d e. delete_generation-Deleted g db d h.0 e) (delete_generation-lifecycle g db))
      (λ _ d p.
        Post-weaken (λ _ e. Deleted gs d e) (λ _ e. Deleted (g ∷ gs) db e)
          (for_each gs delete_generation d) (λ _ e q. Deleted-trans g gs db d e p q)
          (for_each-Deleted gs d (IsUnpointed-Deleted (g ∷ []) gs db d p h.1)))

orphans-IsUnpointed :
    (db : Db) (keep : Option Text) (rs : List DatasetGenerationRecord)
    → All (IsUnpointed db) (orphans (is_protected db.current db.previous keep) rs)
unfolding orphans
orphans-IsUnpointed db keep [] = tt
orphans-IsUnpointed db keep (r ∷ rs) = ground (arith, orphans-IsUnpointed db keep rs)

-- When `delete_orphan_staging` returns, it has deleted exactly the orphans.
pub delete_orphan_staging-Deleted :
    (keep : Option Text) (db : Db)
    → Post
        (λ _ d. Deleted (orphans (is_protected db.current db.previous keep) db.generations) db d)
        (delete_orphan_staging keep db)
unfolding delete_orphan_staging
delete_orphan_staging-Deleted keep db =
    for_each-Deleted (orphans (is_protected db.current db.previous keep) db.generations) db
      (orphans-IsUnpointed db keep db.generations)
