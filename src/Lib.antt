-- ===== src/Lib.antt =====
-- Verification of the generation store and of the scrape that fills it.
--
-- The service keeps bus-route data in generations. A scrape takes a lease, collects a catalogue,
-- stages it as a new generation, validates it, and publishes it: the new generation becomes `current`
-- (what passengers are shown) and the old current one `previous`. Failed generations are discarded,
-- and older ones are deleted with the route data that nothing else refers to.
--
-- Base and its child modules hold the shared names: Boolean tests on the native numbers, lists, and
-- stable sorting.
--
-- Store models src/sombreado/store/generation.py and generation_writes.py on the tables of
-- store/models.py and migrations/versions/20260731_0001_postgis_generation_store.py:
--   * Store/Schema: the tables as a record of lists (`Db`), and the constraints that PostgreSQL checks
--     (`satisfies_constraints`).
--   * Store/Tx: a transaction is a state passing function with errors, `execute` is one statement and
--     raises if its result breaks a constraint, `transaction` commits or rolls back. Store/Hoare:
--     postconditions of transactions.
--   * Store/Delete: `delete_generation`, `delete_orphan_staging`. Store/Geometry: `geography_wkt` and
--     `_linestring_coordinates`. Store/Writes: the insert helpers. Store/Validate:
--     `validate_generation`. Store/Lifecycle: `stage`, `validate`, `publish`, `discard_staging` and the
--     reads of the pointers. Store/Lease: `claim_scrape_lease`, `release_scrape_lease`. Store/Runs:
--     `record_scrape_run`, `prune_scrape_runs`.
--   * Store/Discovery: `load_advice_route_context` and `load_direction_choices` of
--     src/sombreado/store/discovery.py, the reads of the current generation. Store/Discovery/OneTrip is
--     `load_direction_choices_for_route` and Store/Discovery/Search `search_route_candidates`, each of one
--     round trip; Store/Discovery/Buckets the loops with which both gather labels.
--   * Store/Editions: the same contract without tables, as a current and a previous edition, and the
--     view of the tables as editions.
--   * Store/Backup: the protocol of src/sombreado/store/object_storage.py as a record of operations,
--     `MemoryObjectStorage`, and `_prune_old_backups` of src/sombreado/store/backup.py;
--     Store/Backup/S3: `S3CompatibleObjectStorage` on any client; Store/Backup/Job: `run_backup_job` and
--     `restore_aside_from_object` on any storage.
--   * Store/Reach: the store as a state machine whose steps are these methods.
--
-- Ingestion/Scrape models `run_scrape` and `_persist_run` of src/sombreado/ingestion/scrape.py, which
-- calls the store's methods.
--
-- Ingestion/Domain has the values of src/sombreado/ingestion/domain.py. Ingestion/Directions models
-- src/sombreado/ingestion/directions.py: the kinds of a route's two lines, the matches of timetables to
-- lines, and the names that passengers read. Ingestion/Segments models `materialize_route_segments` of
-- src/sombreado/ingestion/segments.py. Ingestion/Canonical models `snapshots_to_canonical_rows` of
-- src/sombreado/ingestion/canonical.py, whose rows are what `stage` of the store is given. Ingestion/Catalogue models
-- `ConsorcioCatalogueSource` of src/sombreado/ingestion/catalogue.py, from which the scrape collects.
-- Ingestion/Http models `AsyncHttpFetcher` of src/sombreado/ingestion/http.py, by which the catalogue source gets its
-- pages; it is modelled one call at a time, and the catalogue source takes it as a parameter. The client follows
-- redirects, and the pages that it follows stand among the requests.
--
-- Advice models src/sombreado/advice and the types of src/sombreado/domain/schemas.py that it uses.
-- Advice/Exposure is exposure.py; Advice/Projection is `segments_after_projection` and
-- `_segments_from_direction_start`; Advice/Service is `AdviceService`, which is given what the store
-- holds for a direction.
--
-- Texts are only compared and ordered, so a text is a number (its place in the order); the geometry
-- texts, which are read, are lists of character codes. Floats that are only stored are opaque numbers.
-- Times are numbers of seconds. Loops are structural recursion: the attempts of a
-- scrape are a list with one item for each of `max_attempts`. Only the listing of an S3 bucket takes fuel,
-- one for each page, and a bucket whose listing ends after n pages needs no more than n.
--
-- Parameters: Python's `float` on a text, and what the catalogue source returns or raises at each
-- attempt; the projection of a location on a route (`project_location_to_segments`) and the position of
-- the sun (`sun_position`); Python's Unicode functions; the distance, bearing and interpolation of points
-- when a line is cut into segments; uuids, and the texts of floats, names, enumerations and JSON in the
-- canonical rows; SQL's ILIKE; the HTTP client and `robotparser`; the parsers of HTML and KML; the S3
-- client, `startswith` of a key's prefix, the SQLite backup of the live database and the integrity check. The advice computes with floats: in the model distances are numbers of
-- micrometres and angles numbers of microdegrees, and a bus's distance in a window is rounded down.
-- A statement's unique keys are checked once it is done, where PostgreSQL checks them row by row; a limit on the
-- routes of a scrape is not negative; whatever the index of the catalogue raises is retryable.
-- Not modelled: the connection, the SQL engine's indexes, CHECK (is_current IN (0, 1)), logging
-- and pauses; the HTTP API; the parsers. Transactions run one after the other; the advisory lock and the
-- row locks that make them so are not modelled.
mod Base
pub mod Store
pub mod Ingestion
pub mod Advice
