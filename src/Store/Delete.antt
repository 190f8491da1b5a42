-- ===== src/Store/Delete.antt =====
-- `delete_generation` and `delete_orphan_staging` of src/sombreado/store/generation_writes.py.
pub mod Frame
pub mod Shared
pub mod Orphans
use sombreado_service.Base.{
  Bool, true, false, not, ◌&&◌, ◌||◌, Option, none, some, List, [], ◌∷◌, map, ◌==◌, any, filter,
  find?, if◌then◌else◌,
}
use sombreado_service.Store.Errors.{Text}
use sombreado_service.Store.Schema.{
  Db, DatasetGenerationRecord, RouteVersionRecord, Status, staging, validated, published,
}
use sombreado_service.Store.Tx.{Tx, pure, query, execute, ◌>>=◌, ◌>>◌, when, for_each}

-- A nullable column against a text; NULL is equal to nothing.
abbrev pub is_at : Text → Option Text → Bool
is_at g none = false
is_at g (some h) = h == g

-- `pointer(connection, role)`
pub data Role : Type 0 where
  current_role previous_role : Role

abbrev pub pointer : Role → Db → Option Text
pointer current_role db = db.current
pointer previous_role db = db.previous

-- SELECT status FROM dataset_generations WHERE id = g
abbrev pub status_in : Text → List DatasetGenerationRecord → Option Status
status_in g [] = none
status_in g (r ∷ rs) = let rest = status_in g rs in if r.id == g then some r.status else rest

-- DELETE FROM dataset_pointers WHERE generation_id = g, on one role's row
abbrev pub unless_at : Text → Option Text → Option Text
unless_at g p = if is_at g p then none else p

unfoldable pub delete_pointers : Text → Db → Db
delete_pointers g db = record db {
  current = unless_at g db.current;
  previous = unless_at g db.previous;
}

unfoldable pub delete_counts : Text → Db → Db
delete_counts g db = record db { counts = filter (λ c. not (c.generation_id == g)) db.counts }

unfoldable pub delete_generation_routes : Text → Db → Db
delete_generation_routes g db = record db {
  generation_routes = filter (λ r. not (r.generation_id == g)) db.generation_routes;
}

unfoldable pub delete_members : Text → Db → Db
delete_members g db = record db { members = filter (λ m. not (m.generation_id == g)) db.members }

unfoldable pub delete_generations : Text → Db → Db
delete_generations g db = record db { generations = filter (λ r. not (r.id == g)) db.generations }

unfoldable pub delete_segments : Text → Db → Db
delete_segments v db = record db {
  route_segments = filter (λ s. not (s.route_version_id == v)) db.route_segments;
}

unfoldable pub delete_services : Text → Db → Db
delete_services v db = record db {
  service_directions = filter (λ s. not (s.route_version_id == v)) db.service_directions;
}

unfoldable pub delete_directions : Text → Db → Db
delete_directions v db = record db {
  route_directions = filter (λ d. not (d.route_version_id == v)) db.route_directions;
}

unfoldable pub delete_versions : Text → Db → Db
delete_versions v db = record db {
  route_versions = filter (λ r. not (r.id == v)) db.route_versions;
}

unfoldable pub delete_routes : Text → Db → Db
delete_routes i db = record db { routes = filter (λ r. not (r.id == i)) db.routes }

-- The EXISTS query of the loop.
unfoldable pub still_referenced : Text → Db → Bool
still_referenced v db = any (λ m. m.route_version_id == v) db.members

unfoldable pub orphan_route : Text → Db → Bool
orphan_route i db =
    not (any (λ v. v.route_id == i) db.route_versions)
    && not (any (λ m. m.route_id == i) db.members)

abbrev pub route_of : Option RouteVersionRecord → Option Text
route_of none = none
route_of (some v) = some v.route_id

-- `if route_id is not None: ...` at the end of the loop's body
unfoldable pub delete_orphan_route : Option Text → Tx Unit
delete_orphan_route none = pure tt
delete_orphan_route (some i) = do
  orphan ← query (orphan_route i)
  when orphan (execute (delete_routes i))

-- The rows of one version, once nothing refers to it.
unfoldable pub delete_version_data : Text → Tx Unit
delete_version_data v = do
  execute (delete_segments v)
  execute (delete_services v)
  execute (delete_directions v)
  route_id ← query (λ db. route_of (find? (λ r. r.id == v) db.route_versions))
  execute (delete_versions v)
  delete_orphan_route route_id

-- The body of the loop over the version ids.
unfoldable pub delete_version : Text → Tx Unit
delete_version v = do
  referenced ← query (still_referenced v)
  when (not referenced) (delete_version_data v)

unfoldable pub version_ids : Text → Db → List Text
version_ids g db = map (λ m. m.route_version_id) (filter (λ m. m.generation_id == g) db.members)

unfoldable pub delete_generation : Text → Tx Unit
delete_generation g = do
  versions ← query (version_ids g)
  execute (delete_pointers g)
  execute (delete_counts g)
  execute (delete_generation_routes g)
  execute (delete_members g)
  execute (delete_generations g)
  for_each versions delete_version

abbrev pub unpublished : Status → Bool
unpublished staging = true
unpublished validated = true
unpublished published = false

-- The set `protected`.
abbrev pub is_protected : Option Text → Option Text → Option Text → Text → Bool
is_protected current previous keep i = is_at i current || is_at i previous || is_at i keep

-- The ids of staging and validated generations that are not protected.
unfoldable pub orphans : (Text → Bool) → List DatasetGenerationRecord → List Text
orphans protected [] = []
orphans protected (r ∷ rs) =
    let rest = orphans protected rs in
    if unpublished r.status && not (protected r.id) then r.id ∷ rest else rest

unfoldable pub delete_orphan_staging : Option Text → Tx Unit
delete_orphan_staging keep_generation_id = do
  current ← query (pointer current_role)
  previous ← query (pointer previous_role)
  orphan_ids ←
      query (λ db. orphans (is_protected current previous keep_generation_id) db.generations)
  for_each orphan_ids delete_generation
