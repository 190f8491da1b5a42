-- ===== src/Ingestion/Catalogue/Tests.antt =====
-- A catalogue that lists two routes; at the first visit the second one cannot be fetched.
use sombreado_service.Base.{
  ◌+◌, true, false, Option, none, some, List, [], ◌∷◌, map, ◌==◌, if◌then◌else◌, ◌≡◌, refl,
}
use sombreado_service.Base.Order.{sorted, insert}
use sombreado_service.Store.Errors.{Text}
use sombreado_service.Store.Schema.{empty}
use sombreado_service.Store.Lifecycle.Serves.{empty-IsValid}
use sombreado_service.Ingestion.Domain.{ParsedRoutePage}
use sombreado_service.Ingestion.Scrape.{
  Collect, returns, raises_retryable, raises_other, ScrapeCall, run_scrape,
}
use sombreado_service.Ingestion.Directions.{Unicode}
use sombreado_service.Ingestion.Canonical.{Python}
use sombreado_service.Ingestion.Catalogue.{
  Web, value, raises, collect, route_urls, fetch_all, fetch_one, fetch_route, gathered,
}
use sombreado_service.Ingestion.Catalogue.Listed.{IsListed, collect-IsListed}
use sombreado_service.Ingestion.Catalogue.Scraped.{
  Visit, attempt_of, EndsListed, run_scrape-EndsListed,
}

abbrev page : Text → ParsedRoutePage
page url = record {
  code = url;
  name = 2;
  slug = 3;
  page_url = url;
  map_url = none;
  category = none;
  fare_region = none;
  last_changed = none;
  service_directions = [];
}

abbrev web_without : Text → Web
web_without missing = record {
  get_text = λ url. if url == missing then raises 90 else value url;
  parse_route_links = λ html. 11 ∷ 12 ∷ [];
  parse_route_page = λ html url. value (page url);
  parse_kml_directions = λ text. value [];
  hash_text = λ text. text;
  warning_text = λ warning. 91;
  catalogue_empty = 92;
  zip_error = 93;
}

abbrev unicode : Unicode
unicode = record {
  spelling = λ t. [];
  nfkd = λ s. s;
  combining = λ c. false;
  lower = λ s. s;
  is_word = λ c. true;
}

abbrev python : Python
python = record {
  fresh = λ n. 1000 + n;
  route_uuid = λ code. 500 + code;
  print = λ x. [];
  name_text = λ name. 7;
  kind_text = λ kind. 8;
  confidence_text = λ confidence. 9;
  method_text = λ method. 10;
  notes_text = λ notes. 11;
  floats = record {
    distance = λ a b. 0;
    bearing = λ a b. 0;
    fraction = λ i n. i;
    interpolate = λ a b k. a;
  };
}

abbrev failures : Collect → Option (List Text)
failures (returns c) = some c.hard_failures
failures (raises_retryable t) = none
failures (raises_other t) = none

second_fails : failures (collect (web_without 12) unicode python 1 none) ≡ some (12 ∷ [])
unfolding collect gathered fetch_all fetch_one fetch_route sorted insert
second_fails = refl

collect-IsListed_example :
    IsListed
      (web_without 12)
      unicode
      python
      (route_urls (web_without 12) unicode 1 none)
      (collect (web_without 12) unicode python 1 none)
collect-IsListed_example = collect-IsListed (web_without 12) unicode python 1 none

abbrev visits : List Visit
visits =
    record { web = web_without 12; generation_id = 1; created_at = 10; validated_at = 11 }
    ∷ record { web = web_without 13; generation_id = 2; created_at = 20; validated_at = 21 }
    ∷ []

abbrev call : ScrapeCall
call = record {
  holder = 7;
  run_id = 70;
  started_at = 5;
  claimed_at = 6;
  finished_at = 30;
  pruned_at = 31;
  lease_ttl_seconds = 1200;
  force = false;
  scrape_run_retention_days = 30;
}

run_scrape-EndsListed_example :
    EndsListed unicode python 1 none visits empty
      (run_scrape (λ s. none) call (map (attempt_of unicode python 1 none) visits) empty)
run_scrape-EndsListed_example =
    run_scrape-EndsListed unicode python 1 none (λ s. none) call visits empty empty-IsValid
