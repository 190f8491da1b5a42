-- ===== src/Ingestion/Catalogue.antt =====
-- `ConsorcioCatalogueSource` of src/sombreado/ingestion/catalogue.py, what `run_scrape` collects from. The
-- fetches of the routes run side by side, and each yields a result of its own.
pub mod Listed
pub mod Scraped
mod Tests
use sombreado_service.Base.{
  ℕ, ◌+◌, Bool, true, false, Option, none, some, List, [], ◌∷◌, ◌++◌, count, take, leb, ltb, ◌==◌,
  if◌then◌else◌,
}
use sombreado_service.Base.Order.{sorted}
use sombreado_service.Store.Errors.{Text}
use sombreado_service.Store.Writes.{Export, CanonicalRows}
use sombreado_service.Ingestion.Scrape.{ScrapeCollection, Collect, returns, raises_retryable}
use sombreado_service.Ingestion.Domain.{
  DirectionMatchConfidence, RouteDirection, ServiceDirectionMatch, ParsedRoutePage, RouteSnapshot,
}
use sombreado_service.Ingestion.Directions.{Unicode, infer_service_direction_matches}
use sombreado_service.Ingestion.Canonical.{Python, snapshots_to_canonical_rows}

-- A call that returns, or raises with a text. Those of the index raise RuntimeError or PermissionError.
pub data Tried (A : Type 0) : Type 0 where
  value : A → Tried A
  raises : Text → Tried A

abbrev pub bind : {A B : Type 0} → Tried A → (A → Tried B) → Tried B
bind (value a) f = f a
bind (raises e) f = raises e

pub data Warning : Type 0 where
  map_unavailable : Text → Warning
  low_confidence_matches : Text → ℕ → Warning

-- The fetcher, the parsers of HTML and KML and the hash are parameters, and so are the texts of warnings
-- and errors.
pub record Web : Type 0 where
  pub get_text : Text → Tried Text
  pub parse_route_links : Text → List Text
  pub parse_route_page : Text → Text → Tried ParsedRoutePage
  pub parse_kml_directions : Text → Tried (List RouteDirection)
  pub hash_text : Text → Text
  pub warning_text : Warning → Text
  pub catalogue_empty : Text
  pub zip_error : Text

-- The tuple that `_fetch_one` returns.
pub record FetchResult : Type 0 where
  pub index : ℕ
  pub route_url : Text
  pub snapshot : Option RouteSnapshot
  pub error : Option Text
  pub warnings : List Text

-- What the loop over the results has gathered.
pub record Gathered : Type 0 where
  pub hard_failures : List Text
  pub warnings : List Text
  pub snapshots : List RouteSnapshot

abbrev pub is_low : DirectionMatchConfidence → Bool
is_low DirectionMatchConfidence.high = false
is_low DirectionMatchConfidence.medium = false
is_low DirectionMatchConfidence.low = true
is_low DirectionMatchConfidence.none = true

abbrev pub limited : Option ℕ → List Text → List Text
limited none urls = urls
limited (some n) urls = take n urls

abbrev pub index_le : FetchResult → FetchResult → Bool
index_le a b = leb a.index b.index

abbrev pub empty_rows : Export
empty_rows = record {
  routes = some [];
  route_versions = some [];
  route_directions = some [];
  service_directions = some [];
  route_segments = some [];
}

abbrev pub export_of : CanonicalRows → Export
export_of rows = record {
  routes = some rows.routes;
  route_versions = some rows.route_versions;
  route_directions = some rows.route_directions;
  service_directions = some rows.service_directions;
  route_segments = some rows.route_segments;
}

-- One turn of the loop over the results, in front of the later ones.
abbrev pub gather : FetchResult → Option Text → Option RouteSnapshot → Gathered → Gathered
gather r (some error) snapshot later = record later {
  hard_failures = r.route_url ∷ later.hard_failures;
}
gather r none none later = record later { hard_failures = r.route_url ∷ later.hard_failures }
gather r none (some snapshot) later = record {
  hard_failures = later.hard_failures;
  warnings = r.warnings ++ later.warnings;
  snapshots = snapshot ∷ later.snapshots;
}

unfoldable pub gathered : List FetchResult → Gathered
gathered [] = record { hard_failures = []; warnings = []; snapshots = [] }
gathered (r ∷ rs) = gather r r.error r.snapshot (gathered rs)

module _ (web : Web) (u : Unicode) where
  -- `await fetcher.get_text(route.map_url) if route.map_url else ""`; the empty text is 0.
  abbrev pub map_text_of : Option Text → Tried Text
  map_text_of none = value 0
  map_text_of (some url) = if url == 0 then value 0 else web.get_text url

  abbrev pub directions_of : Text → Tried (List RouteDirection)
  directions_of map_text = if map_text == 0 then value [] else web.parse_kml_directions map_text

  abbrev pub map_warning : ParsedRoutePage → Option Text → List Text
  map_warning route none = web.warning_text (map_unavailable route.code) ∷ []
  map_warning route (some url) =
      if url == 0 then web.warning_text (map_unavailable route.code) ∷ [] else []

  abbrev pub match_warning : ParsedRoutePage → List ServiceDirectionMatch → List Text
  match_warning route matches =
      let low = count (λ m. is_low m.confidence) matches in
      if ltb 0 low then web.warning_text (low_confidence_matches route.code low) ∷ [] else []

  abbrev pub snapshot_of :
      Text → ParsedRoutePage → Text → List RouteDirection → RouteSnapshot × List Text
  snapshot_of html route map_text directions =
      let matches = infer_service_direction_matches u route.service_directions directions in
      (
        record {
          route = route;
          directions = directions;
          direction_matches = matches;
          source_hash = web.hash_text html;
          map_hash = if map_text == 0 then none else some (web.hash_text map_text);
        },
        map_warning route route.map_url ++ match_warning route matches,
      )

  -- The body of the `try`.
  unfoldable pub fetch_route : Text → Tried (RouteSnapshot × List Text)
  fetch_route url = bind (web.get_text url) λ html. bind (web.parse_route_page html url) λ route.
      bind (map_text_of route.map_url) λ map_text.
        bind (directions_of map_text)
          λ directions. value (snapshot_of html route map_text directions)

  abbrev pub result_of : ℕ → Text → Tried (RouteSnapshot × List Text) → FetchResult
  result_of index url (value p) = record {
    index = index;
    route_url = url;
    snapshot = some p.0;
    error = none;
    warnings = p.1;
  }
  result_of index url (raises e) = record {
    index = index;
    route_url = url;
    snapshot = none;
    error = some e;
    warnings = [];
  }

  unfoldable pub fetch_one : ℕ → Text → FetchResult
  fetch_one index url = result_of index url (fetch_route url)

  -- `asyncio.gather` over `enumerate(route_urls, start=1)`.
  unfoldable pub fetch_all : ℕ → List Text → List FetchResult
  fetch_all index [] = []
  fetch_all index (url ∷ urls) = fetch_one index url ∷ fetch_all (index + 1) urls

  abbrev pub route_urls : Text → Option ℕ → Tried (List Text)
  route_urls source_url limit =
      bind (web.get_text source_url) λ html. value (limited limit (web.parse_route_links html))

  module _ (py : Python) where
    abbrev pub converted : List Text → Option CanonicalRows → Collect
    converted warnings none = raises_retryable web.zip_error
    converted warnings (some rows) =
        returns (record { rows = export_of rows; hard_failures = []; warnings = warnings })

    abbrev pub collection_of : List Text → Gathered → Collect
    collection_of [] g = converted g.warnings (snapshots_to_canonical_rows py g.snapshots)
    collection_of (url ∷ urls) g =
        returns (record { rows = empty_rows; hard_failures = url ∷ urls; warnings = g.warnings })

    abbrev pub collect_routes : List Text → Collect
    collect_routes [] = raises_retryable web.catalogue_empty
    collect_routes (url ∷ urls) =
        let g = gathered (sorted index_le (fetch_all 1 (url ∷ urls))) in
        collection_of g.hard_failures g

    abbrev pub collect_listed : Tried (List Text) → Collect
    collect_listed (raises e) = raises_retryable e
    collect_listed (value urls) = collect_routes urls

    -- `collect`
    unfoldable pub collect : Text → Option ℕ → Collect
    collect source_url limit = collect_listed (route_urls source_url limit)
