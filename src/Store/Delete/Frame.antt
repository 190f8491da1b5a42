-- ===== src/Store/Delete/Frame.antt =====
-- What `delete_generation` does to the tables of the lifecycle, and which tables its loop over the
-- version ids leaves alone.
use sombreado_service.Base.{◌≡◌, refl, true, not, [], Option, none, some, Bool-cases, inl, inr}
use sombreado_service.Store.Errors.{Text}
use sombreado_service.Store.Schema.{Db, satisfies_constraints}
use sombreado_service.Store.Tx.{for_each}
use sombreado_service.Store.Hoare.{
  Post, Post-execute, Post-step, Keeps, Keeps-bind, Keeps-execute, Keeps-for_each, Keeps-when,
}
use sombreado_service.Store.Delete.{
  delete_segments, delete_services, delete_directions, delete_versions, delete_routes,
  delete_orphan_route, delete_version_data, delete_version, still_referenced, orphan_route,
  version_ids, delete_generation, delete_pointers, delete_counts, delete_generation_routes,
  delete_members, delete_generations,
}

-- A predicate that each statement of `delete_version_data` keeps.
pub record IsFrame {ℓ} (P : Db → Type ℓ) (v : Text) : Type ℓ where
  pub segments :
      (db : Db)
      → satisfies_constraints (delete_segments v db) ≡ true
      → P db
      → P (delete_segments v db)
  pub services :
      (db : Db)
      → satisfies_constraints (delete_services v db) ≡ true
      → P db
      → P (delete_services v db)
  pub directions :
      (db : Db)
      → satisfies_constraints (delete_directions v db) ≡ true
      → P db
      → P (delete_directions v db)
  pub versions :
      (db : Db)
      → satisfies_constraints (delete_versions v db) ≡ true
      → P db
      → P (delete_versions v db)
  pub routes :
      (i : Text) (db : Db)
      → satisfies_constraints (delete_routes i db) ≡ true
      → orphan_route i db ≡ true
      → P db
      → P (delete_routes i db)

module _ {ℓ} (P : Db → Type ℓ)
    (routes : (i : Text) (db : Db)
      → satisfies_constraints (delete_routes i db) ≡ true
      → orphan_route i db ≡ true
      → P db
      → P (delete_routes i db)) where
  pub delete_orphan_route-Keeps : (i : Option Text) → Keeps P (delete_orphan_route i)
  unfolding delete_orphan_route
  delete_orphan_route-Keeps none db h = h
  delete_orphan_route-Keeps (some i) db h = elim (Bool-cases (orphan_route i db)) [
    | inl e ↦ rw e (Post-execute (λ _ d. P d) (delete_routes i) db (λ sat. routes i db sat e h))
    | inr e ↦ rw e h
  ]

module _ {ℓ} (P : Db → Type ℓ) (v : Text) (frame : IsFrame P v) where
  pub delete_version_data-Keeps : Keeps P (delete_version_data v)
  unfolding delete_version_data
  delete_version_data-Keeps = Keeps-bind P _ _ (Keeps-execute P _ frame.segments) λ _.
      Keeps-bind P _ _ (Keeps-execute P _ frame.services) λ _.
        Keeps-bind P _ _ (Keeps-execute P _ frame.directions) λ _ db h.
          Keeps-bind P _ _ (Keeps-execute P _ frame.versions)
            (λ _. delete_orphan_route-Keeps P frame.routes _) db h

-- A database without its route data.
abbrev pub lifecycle : Db → Db
lifecycle db = record db {
  routes = [];
  route_versions = [];
  route_directions = [];
  service_directions = [];
  route_segments = [];
}

abbrev SameLifecycle : Db → Db → Type 0
SameLifecycle before db = lifecycle db ≡ lifecycle before

SameLifecycle-IsFrame : (before : Db) (v : Text) → IsFrame (SameLifecycle before) v
unfolding delete_segments delete_services delete_directions delete_versions delete_routes
SameLifecycle-IsFrame before v = record {
  segments = λ db _ h. h;
  services = λ db _ h. h;
  directions = λ db _ h. h;
  versions = λ db _ h. h;
  routes = λ i db _ e h. h;
}

delete_version-lifecycle :
    (before : Db) (v : Text) → Keeps (SameLifecycle before) (delete_version v)
unfolding delete_version
delete_version-lifecycle before v db h =
    Keeps-when (SameLifecycle before) (not (still_referenced v db)) (delete_version_data v)
      (λ _. delete_version_data-Keeps (SameLifecycle before) v (SameLifecycle-IsFrame before v)) db
      h

-- The five deletions before the loop.
unfoldable pub delete_rows : Text → Db → Db
unfolding delete_pointers delete_counts delete_generation_routes delete_members delete_generations
delete_rows g db =
    delete_generations g
      (delete_members g (delete_generation_routes g (delete_counts g (delete_pointers g db))))

-- `delete_generation` is its five deletions, and then the loop over the versions that were members.
pub delete_generation-Post :
    (g : Text) (Q : Db → Type 0) (db : Db)
    → (satisfies_constraints (delete_rows g db) ≡ true
        → Post (λ _ d. Q d) (for_each (version_ids g db) delete_version (delete_rows g db)))
    → Post (λ _ d. Q d) (delete_generation g db)
unfolding delete_generation delete_rows
delete_generation-Post g Q db loop = Post-step _ (delete_pointers g) _ db λ _.
    Post-step _ (delete_counts g) _ _ λ _.
      Post-step _ (delete_generation_routes g) _ _
        λ _. Post-step _ (delete_members g) _ _ λ _. Post-step _ (delete_generations g) _ _ loop

-- In the tables of the lifecycle `delete_generation` makes its five deletions and no other change.
pub delete_generation-lifecycle :
    (g : Text) (db : Db)
    → Post (λ _ d. lifecycle d ≡ lifecycle (delete_rows g db)) (delete_generation g db)
delete_generation-lifecycle g db =
    delete_generation-Post g (SameLifecycle (delete_rows g db)) db λ _.
      Keeps-for_each (SameLifecycle (delete_rows g db)) (version_ids g db) delete_version
        (delete_version-lifecycle (delete_rows g db)) (delete_rows g db) refl

satisfies-IsFrame : (v : Text) → IsFrame (λ db. satisfies_constraints db ≡ true) v
satisfies-IsFrame v = record {
  segments = λ db e h. e;
  services = λ db e h. e;
  directions = λ db e h. e;
  versions = λ db e h. e;
  routes = λ i db e o h. e;
}

pub delete_generation-satisfies :
    (g : Text) (db : Db) → Post (λ _ d. satisfies_constraints d ≡ true) (delete_generation g db)
unfolding delete_version
delete_generation-satisfies g db =
    delete_generation-Post g (λ d. satisfies_constraints d ≡ true) db
      λ sat.
        Keeps-for_each (λ d. satisfies_constraints d ≡ true) (version_ids g db) delete_version
          (λ v d h.
            Keeps-when (λ x. satisfies_constraints x ≡ true) (not (still_referenced v d))
              (delete_version_data v)
              (λ _.
                delete_version_data-Keeps (λ x. satisfies_constraints x ≡ true) v
                  (satisfies-IsFrame v))
              d h)
          (delete_rows g db) sat
