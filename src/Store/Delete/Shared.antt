-- ===== src/Store/Delete/Shared.antt =====
-- Deleting a generation never takes away route data that another generation refers to, and leaves
-- behind no data of its own that nothing refers to.
use sombreado_service.Base.{
  ◌≡◌, ◌≢◌, refl, ap, Bool, true, not, ◌&&◌, List, [], ◌∷◌, ◌==◌, any, filter, Bool-cases, sym, inl,
  inr, ◌⊎◌, arith, elem,
}
use mathlib.Core.Path.{subst}
use native.Mathlib.Decide.{ℕ_discrete}
use sombreado_service.Store.Errors.{Text}
use sombreado_service.Store.Schema.{
  Db, RouteVersionRecord, RouteDirectionRecord, ServiceDirectionRecord, RouteSegmentRecord,
  DatasetRouteVersionRecord,
}
use sombreado_service.Store.Tx.{for_each}
use sombreado_service.Store.Hoare.{
  Post, Post-bind, Post-step, Post-weaken, Post-true, Keeps, Keeps-for_each, Keeps-when,
}
use sombreado_service.Store.Delete.{
  delete_segments, delete_services, delete_directions, delete_versions, delete_routes,
  delete_version_data, delete_version, still_referenced, version_ids, delete_generation,
}
use sombreado_service.Store.Delete.Frame.{
  IsFrame, delete_version_data-Keeps, delete_orphan_route-Keeps, delete_rows,
  delete_generation-Post,
}

-- All rows of one route version.
pub record VersionData : Type 0 where
  pub versions : List RouteVersionRecord
  pub directions : List RouteDirectionRecord
  pub services : List ServiceDirectionRecord
  pub segments : List RouteSegmentRecord

abbrev pub data_of : Text → Db → VersionData
data_of w db = record {
  versions = filter (λ r. r.id == w) db.route_versions;
  directions = filter (λ d. d.route_version_id == w) db.route_directions;
  services = filter (λ s. s.route_version_id == w) db.service_directions;
  segments = filter (λ s. s.route_version_id == w) db.route_segments;
}

-- Deleting what lies at `v` leaves what lies at another `w`.
filter-delete {ℓ} :
    {A : Type ℓ} (at : A → Text) (v w : Text) (xs : List A)
    → v ≢ w
    → filter (λ x. at x == w) (filter (λ x. not (at x == v)) xs) ≡ filter (λ x. at x == w) xs
filter-delete at v w [] ne = refl
filter-delete at v w (x ∷ xs) ne = ground (arith, filter-delete at v w xs ne)

filter-delete_self {ℓ} :
    {A : Type ℓ} (at : A → Text) (v : Text) (xs : List A)
    → filter (λ x. at x == v) (filter (λ x. not (at x == v)) xs) ≡ []
filter-delete_self at v [] = refl
filter-delete_self at v (x ∷ xs) = ground (arith, filter-delete_self at v xs)

module _ (v w : Text) (ne : v ≢ w) (db : Db) where
  data_of-segments : data_of w (delete_segments v db) ≡ data_of w db
  unfolding delete_segments
  data_of-segments =
      ap (λ rows. record (data_of w db) { segments = rows })
        (filter-delete (λ (s : RouteSegmentRecord). s.route_version_id) v w db.route_segments ne)

  data_of-services : data_of w (delete_services v db) ≡ data_of w db
  unfolding delete_services
  data_of-services =
      ap (λ rows. record (data_of w db) { services = rows })
        (filter-delete (λ (s : ServiceDirectionRecord). s.route_version_id) v w
          db.service_directions ne)

  data_of-directions : data_of w (delete_directions v db) ≡ data_of w db
  unfolding delete_directions
  data_of-directions =
      ap (λ rows. record (data_of w db) { directions = rows })
        (filter-delete (λ (d : RouteDirectionRecord). d.route_version_id) v w db.route_directions
          ne)

  data_of-versions : data_of w (delete_versions v db) ≡ data_of w db
  unfolding delete_versions
  data_of-versions =
      ap (λ rows. record (data_of w db) { versions = rows })
        (filter-delete (λ (r : RouteVersionRecord). r.id) v w db.route_versions ne)

-- A fact about the rows of `w`, and about whether a generation refers to `w`.
module _ (w : Text) (Q : Bool → VersionData → Type 0) where
  abbrev pub Holds : Db → Type 0
  Holds db = Q (still_referenced w db) (data_of w db)

  Holds-IsFrame : (v : Text) → v ≢ w → IsFrame Holds v
  unfolding still_referenced delete_segments delete_services delete_directions delete_versions
      delete_routes
  Holds-IsFrame v ne = record {
    segments = λ db _ h. subst (Q (still_referenced w db)) (sym (data_of-segments v w ne db)) h;
    services = λ db _ h. subst (Q (still_referenced w db)) (sym (data_of-services v w ne db)) h;
    directions = λ db _ h. subst (Q (still_referenced w db)) (sym (data_of-directions v w ne db)) h;
    versions = λ db _ h. subst (Q (still_referenced w db)) (sym (data_of-versions v w ne db)) h;
    routes = λ i db _ e h. h;
  }

abbrev HasData : VersionData → Bool → VersionData → Type 0
HasData rows referenced found = (referenced ≡ true) × (found ≡ rows)

abbrev no_data : VersionData
no_data = record { versions = []; directions = []; services = []; segments = [] }

abbrev pub IsCleared : Bool → VersionData → Type 0
IsCleared referenced found = (referenced ≡ true) ⊎ (found ≡ no_data)

delete_version-frame : (v w : Text) → v ≢ w → Keeps (Holds w IsCleared) (delete_version v)
unfolding delete_version
delete_version-frame v w ne db h =
    Keeps-when (Holds w IsCleared) (not (still_referenced v db)) (delete_version_data v)
      (λ _. delete_version_data-Keeps (Holds w IsCleared) v (Holds-IsFrame w IsCleared v ne)) db h

-- The loop's body at `v` keeps the data of every `w` that is referred to, `v` itself included.
delete_version-HasData :
    (v w : Text) (rows : VersionData) → Keeps (Holds w (HasData rows)) (delete_version v)
unfolding delete_version
delete_version-HasData v w rows db h = elim (Bool-cases (still_referenced v db)) [
  | inl e ↦ rw e h
  | inr e ↦ rw e (
      delete_version_data-Keeps (Holds w (HasData rows)) v
        (Holds-IsFrame w (HasData rows) v
          (λ (p : v ≡ w). cc (ap (λ x. still_referenced x db) p, e, h.0)))
        db h)
]

delete_version_data-clears :
    (v : Text) (db : Db) → Post (λ _ d. data_of v d ≡ no_data) (delete_version_data v db)
unfolding delete_version_data delete_segments delete_services delete_directions delete_versions
    delete_routes
delete_version_data-clears v db = Post-step _ (delete_segments v) _ db λ _.
    Post-step _ (delete_services v) _ _ λ _. Post-step _ (delete_directions v) _ _ λ _.
      Post-step _ (delete_versions v) _ _ λ _.
        delete_orphan_route-Keeps (λ d. data_of v d ≡ no_data) (λ i d _ _ h. h) _ _
          (λ i. record {
            versions = filter-delete_self (λ (r : RouteVersionRecord). r.id) v db.route_versions i;
            directions =
                filter-delete_self (λ (d : RouteDirectionRecord). d.route_version_id) v
                  db.route_directions i;
            services =
                filter-delete_self (λ (s : ServiceDirectionRecord). s.route_version_id) v
                  db.service_directions i;
            segments =
                filter-delete_self (λ (s : RouteSegmentRecord). s.route_version_id) v
                  db.route_segments i;
          })

-- The loop's body at `v` leaves nothing of `v`, or `v` is still referred to.
delete_version-clears :
    (v : Text) (db : Db) → Post (λ _ d. Holds v IsCleared d) (delete_version v db)
unfolding delete_version
delete_version-clears v db = elim (Bool-cases (still_referenced v db)) [
  | inl e ↦ rw e (inl e)
  | inr e ↦ rw e (
      Post-weaken (λ _ d. data_of v d ≡ no_data) (λ _ d. Holds v IsCleared d)
        (delete_version_data v db) (λ _ d p. inr p) (delete_version_data-clears v db))
]

delete_version-IsCleared : (v w : Text) → Keeps (Holds w IsCleared) (delete_version v)
delete_version-IsCleared v w db h = elim (ℕ_discrete v w) [
  | yes p ↦
      subst (λ x. Post (λ _ d. Holds x IsCleared d) (delete_version v db)) p
        (delete_version-clears v db)
  | no ne ↦ delete_version-frame v w ne db h
]

for_each-clears :
    (w : Text) (vs : List Text) (db : Db)
    → elem w vs ≡ true
    → Post (λ _ d. Holds w IsCleared d) (for_each vs delete_version db)
unfolding for_each
for_each-clears w [] db h = cc
for_each-clears w (v ∷ vs) db h = elim (ℕ_discrete v w) [
  | yes p ↦
      Post-bind (λ _ d. Holds w IsCleared d) (λ _ d. Holds w IsCleared d) (delete_version v)
        (λ _. for_each vs delete_version) db
        (subst (λ x. Post (λ _ d. Holds x IsCleared d) (delete_version v db)) p
          (delete_version-clears v db))
        (λ _ d q.
          Keeps-for_each (Holds w IsCleared) vs delete_version (λ u. delete_version-IsCleared u w) d
            q)
  | no ne ↦
      Post-bind (λ _ d. Unit {0}) (λ _ d. Holds w IsCleared d) (delete_version v)
        (λ _. for_each vs delete_version) db (Post-true (delete_version v db))
        (λ _ d q. for_each-clears w vs d (ground arith))
]

-- When the deletion of `g` returns, each version that was its member has no rows left, unless a
-- generation still refers to it.
pub delete_generation-clears :
    (g w : Text) (db : Db)
    → elem w (version_ids g db) ≡ true
    → Post (λ _ d. Holds w IsCleared d) (delete_generation g db)
delete_generation-clears g w db h =
    delete_generation-Post g (Holds w IsCleared) db
      λ _. for_each-clears w (version_ids g db) (delete_rows g db) h

any_kept :
    (g w : Text) (ms : List DatasetRouteVersionRecord)
    → any (λ m. m.route_version_id == w && not (m.generation_id == g)) ms ≡ true
    → any (λ m. m.route_version_id == w) (filter (λ m. not (m.generation_id == g)) ms) ≡ true
any_kept g w [] h = h
any_kept g w (m ∷ ms) h = ground (arith, any_kept g w ms)

-- If some generation other than `g` has `w` as a member, a deletion of `g` that returns leaves every
-- row of `w`.
pub delete_generation-keeps_shared :
    (g w : Text) (db : Db)
    → any (λ m. m.route_version_id == w && not (m.generation_id == g)) db.members ≡ true
    → Post (λ _ d. data_of w d ≡ data_of w db) (delete_generation g db)
unfolding delete_rows still_referenced
delete_generation-keeps_shared g w db h =
    Post-weaken (λ _ d. Holds w (HasData (data_of w db)) d) (λ _ d. data_of w d ≡ data_of w db)
      (delete_generation g db) (λ _ d p. p.1)
      (delete_generation-Post g (Holds w (HasData (data_of w db))) db λ _.
        Keeps-for_each (Holds w (HasData (data_of w db))) (version_ids g db) delete_version
          (λ v. delete_version-HasData v w (data_of w db)) (delete_rows g db)
          (any_kept g w db.members h, refl))
