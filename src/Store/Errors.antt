-- ===== src/Store/Errors.antt =====
-- What the store raises, and the texts that a scrape run records of it.
use sombreado_service.Base.{ℕ, List}

abbrev pub Text : Type 0
Text = ℕ

-- `integrity` is psycopg's error; `bad_geometry` and `export_missing_tables` are ValueError;
-- `lease_held_by` is ScrapeLeaseHeldError; the others are RuntimeError.
pub data StoreError : Type 0 where
  integrity : StoreError
  bad_geometry : StoreError
  export_missing_tables : StoreError
  generation_does_not_exist : Text → StoreError
  generation_is_not_staging : Text → StoreError
  expected_counts_missing : Text → StoreError
  no_route_membership : Text → StoreError
  counts_do_not_match : Text → StoreError
  geography_incomplete : Text → StoreError
  membership_is_invalid : Text → StoreError
  advice_segments_mismatch : Text → StoreError
  generation_is_not_validated : Text → StoreError
  not_discardable : Text → StoreError
  passenger_visible : Text → StoreError
  lease_held_by : Text → StoreError

-- `last_error` of `run_scrape`: the text of an exception (of a collect, or of the store), a list of
-- hard failures, or one of these with the failure of `discard_staging` behind it.
pub data Message : Type 0 where
  scrape_failed : Message
  published_text : Message
  collect_raised : Text → Message
  store_raised : StoreError → Message
  hard_failures : List Text → Message
  discard_staging_failed : Message → StoreError → Message
