-- ===== src/Store/Editions.antt =====
-- What src/sombreado/store/generation.py promises, without its tables: an edition of the route data is
-- published as the current one, and the one that was current stays readable as the previous one.
pub mod Refines
mod Tests
use sombreado_service.Base.{ℕ, Option, none, some, List, [], ◌∷◌, ◌++◌}
use sombreado_service.Store.Errors.{Text}
use sombreado_service.Store.Schema.{Db, DatasetRouteVersionRecord}
use sombreado_service.Store.Tx.{Result, ok, err}
use sombreado_service.Store.Validate.{members_of}
use sombreado_service.Store.Lifecycle.{publish}
use sombreado_service.Store.Reach.{
  Step, stages, validates, publishes, discards, claims, releases, records, prunes, Reach, here,
  next,
}

pub record Edition : Type 0 where
  pub id : Text
  pub members : List DatasetRouteVersionRecord

pub record Editions : Type 0 where
  pub current : Option Edition
  pub previous : Option Edition

abbrev pub issue : Edition → Editions → Editions
issue e s = record { current = some e; previous = s.current }

-- The editions after the publications, of which the last one stands first.
unfoldable pub issue_all : List Edition → Editions → Editions
issue_all [] s = s
issue_all (e ∷ es) s = issue e (issue_all es s)

-- The view of the tables: what the two pointers show.
abbrev pub edition_of : Db → Option Text → Option Edition
edition_of db none = none
edition_of db (some g) = some (record { id = g; members = members_of g db })

unfoldable pub editions : Db → Editions
editions db = record { current = edition_of db db.current; previous = edition_of db db.previous }

-- The editions that a call has published: a `publish` that returns issues the members of its
-- generation, and no other call issues any.
abbrev pub issued : Text → Db → Result (Unit {0}) × Db → List Edition
issued g db (ok u, d) = record { id = g; members = members_of g db } ∷ []
issued g db (err e, d) = []

abbrev pub published_by : {a b : Db} → Step a b → List Edition
published_by (stages float g created rows db) = []
published_by (validates g at db) = []
published_by (publishes g db) = issued g db (publish g db)
published_by (discards g db) = []
published_by (claims holder now ttl force db) = []
published_by (releases holder db) = []
published_by (records run db) = []
published_by (prunes now retention_days keep_last db) = []

abbrev pub publications : {a b : Db} → Reach a b → List Edition
publications here = []
publications (next r st) = published_by st ++ publications r
