-- ===== src/Store/Lifecycle.antt =====
-- The lifecycle of a generation, src/sombreado/store/generation.py: stage, validate, publish and
-- discard, each in one transaction, and the reads of the pointers.
pub mod Invariant
pub mod Sweep
pub mod Purge
pub mod Publish
pub mod Stage
pub mod Discard
pub mod Serves
use sombreado_service.Base.{
  ℕ, Bool, true, false, not, ◌&&◌, ◌||◌, Option, none, some, List, [], ◌∷◌, ◌++◌, map, ◌==◌, any,
  filter, find?, if◌then◌else◌, is_some, leb,
}
use sombreado_service.Base.Order.{sorted}
use sombreado_service.Store.Errors.{
  Text, StoreError, export_missing_tables, generation_does_not_exist, generation_is_not_staging,
  generation_is_not_validated, not_discardable, passenger_visible,
}
use sombreado_service.Store.Schema.{
  Codes, Db, Status, staging, validated, published, DatasetGenerationRecord, GenerationRoute,
  RouteRecord,
}
use sombreado_service.Store.Tx.{
  Tx, Method, Result, ok, err, pure, raise_if, or_raise, when, query, execute, ◌>>=◌, ◌>>◌,
  transaction,
}
use sombreado_service.Store.Delete.{
  is_at, status_in, pointer, current_role, previous_role, delete_generation, delete_orphan_staging,
  unpublished,
}
use sombreado_service.Store.Writes.{
  Export, CanonicalRows, validate_export_shape, insert_staged_rows,
}
use sombreado_service.Store.Validate.{validate_generation, is_staging, members_of}

unfoldable pub add_generation : Text → ℕ → Db → Db
add_generation g created db =
    let generation : DatasetGenerationRecord = record {
      id = g;
      status = staging;
      created_at = created;
      validated_at = none;
    } in
    record db { generations = db.generations ++ generation ∷ [] }

unfoldable pub stage_rows : (Codes → Option ℕ) → Text → ℕ → CanonicalRows → Tx Unit
stage_rows float g created rows = do
  execute (add_generation g created)
  insert_staged_rows float g rows

-- `stage`; `created` is `datetime.now(UTC)` and `float` is Python's.
unfoldable pub stage : (Codes → Option ℕ) → Text → ℕ → Export → Method Unit
stage float g created rows db = elim (validate_export_shape rows) [
  | none ↦ (err export_missing_tables, db)
  | some complete ↦ transaction (stage_rows float g created complete) db
]

-- UPDATE dataset_generations SET status = 'validated' ... WHERE id = g AND status = 'staging'
abbrev pub mark_validated : Text → ℕ → List DatasetGenerationRecord → List DatasetGenerationRecord
mark_validated g at [] = []
mark_validated g at (r ∷ rs) =
    let rest = mark_validated g at rs in
    if r.id == g && is_staging r.status
    then record r { status = validated; validated_at = some at } ∷ rest
    else r ∷ rest

unfoldable pub set_validated : Text → ℕ → Db → Db
set_validated g at db = record db { generations = mark_validated g at db.generations }

-- `result.rowcount` of that UPDATE is one.
unfoldable pub one_row_staging : Text → Db → Bool
one_row_staging g db = elim (filter (λ r. r.id == g && is_staging r.status) db.generations) [
  | [] ↦ false
  | r ∷ rs ↦ elim rs [ [] ↦ true | _ ∷ _ ↦ false ]
]

unfoldable pub validate_rows : Text → ℕ → Tx Unit
validate_rows g at = do
  validate_generation g
  updates ← query (one_row_staging g)
  execute (set_validated g at)
  raise_if (not updates) (generation_is_not_staging g)

-- The guards of `discard_staging`; `none` is the early return.
unfoldable pub discard_found : Text → Option Status → Tx Unit
discard_found g none = pure tt
discard_found g (some status) = do
  raise_if (not (unpublished status)) (not_discardable g)
  raise_if (← query (λ db. is_at g db.current || is_at g db.previous)) (passenger_visible g)
  delete_generation g

unfoldable pub discard_rows : Text → Tx Unit
unfolding discard_found
discard_rows g = do found ← query (λ db. status_in g db.generations); discard_found g found

unfoldable pub discard_staging : Text → Method Unit
discard_staging g = transaction (discard_rows g)

-- After a failure the generation is discarded, and the failure is raised again; a failure of the
-- discarding itself takes its place.
abbrev pub raise_again : StoreError → Result (Unit {0}) × Db → Result (Unit {0}) × Db
raise_again e (ok u, db) = (err e, db)
raise_again e (err e', db) = (err e', db)

abbrev pub discard_after : Text → Result (Unit {0}) × Db → Result (Unit {0}) × Db
discard_after g (ok u, db) = (ok u, db)
discard_after g (err e, db) = raise_again e (discard_staging g db)

unfoldable pub validate : Text → ℕ → Method Unit
validate g at db = discard_after g (transaction (validate_rows g at) db)

-- UPDATE routes ... FROM generation_routes: a route with a snapshot in generation `g` takes its
-- attributes.
abbrev pub snapshot_of : Text → Text → List GenerationRoute → Option GenerationRoute
snapshot_of g i = find? (λ s. s.generation_id == g && s.route_id == i)

abbrev pub with_snapshot : Option GenerationRoute → RouteRecord → RouteRecord
with_snapshot none r = r
with_snapshot (some s) r = record r {
  code = s.code;
  name = s.name;
  slug = s.slug;
  category = s.category;
  fare_region = s.fare_region;
  last_changed = s.last_changed;
  is_current = s.is_current;
}

unfoldable pub apply_generation_routes : Text → Db → Db
apply_generation_routes g db = record db {
  routes = map (λ r. with_snapshot (snapshot_of g r.id db.generation_routes) r) db.routes;
}

-- UPDATE dataset_generations SET status = 'published' WHERE id = g
abbrev pub mark_published : Text → List DatasetGenerationRecord → List DatasetGenerationRecord
mark_published g [] = []
mark_published g (r ∷ rs) =
    let rest = mark_published g rs in
    if r.id == g then record r { status = published } ∷ rest else r ∷ rest

unfoldable pub set_published : Text → Db → Db
set_published g db = record db { generations = mark_published g db.generations }

unfoldable pub point_current : Text → Db → Db
point_current g db = record db { current = some g }

unfoldable pub point_previous : Text → Db → Db
point_previous g db = record db { previous = some g }

unfoldable pub clear_previous : Db → Db
clear_previous db = record db { previous = none }

-- `if previous is not None and previous != current: delete_generation(connection, previous)`
unfoldable pub retire_previous : Option Text → Option Text → Tx Unit
retire_previous current none = pure tt
retire_previous current (some p) = when (not (is_at p current)) (delete_generation p)

abbrev is_validated : Status → Bool
is_validated staging = false
is_validated validated = true
is_validated published = false

-- The old current generation becomes the previous one.
unfoldable pub demote : Text → Option Text → Option Text → Tx Unit
demote g none previous = when (is_some previous) (execute clear_previous)
demote g (some c) previous =
    when (not (c == g)) do execute (point_previous c); execute (set_published c)

unfoldable pub publish_rows : Text → Tx Unit
publish_rows g = do
  found ← query (λ db. status_in g db.generations)
  status ← or_raise found (generation_does_not_exist g)
  raise_if (not (is_validated status)) (generation_is_not_validated g)
  current ← query (pointer current_role)
  previous ← query (pointer previous_role)
  retire_previous current previous
  delete_orphan_staging (some g)
  execute (apply_generation_routes g)
  demote g current previous
  execute (point_current g)
  execute (set_published g)

unfoldable pub publish : Text → Method Unit
publish g = transaction (publish_rows g)

unfoldable pub current_generation : Db → Option Text
current_generation db = pointer current_role db

unfoldable pub previous_generation : Db → Option Text
previous_generation db = pointer previous_role db

unfoldable pub has_generation : Text → Db → Bool
has_generation g db = any (λ r. r.id == g) db.generations

-- ORDER BY route_version_id, over the members of the generation that `current` points at
unfoldable pub current_route_version_ids : Db → List Text
current_route_version_ids db = elim db.current [
  | none ↦ []
  | some g ↦ sorted leb (map (λ m. m.route_version_id) (members_of g db))
]
