-- ===== src/Ingestion/Tests.antt =====
-- The theorems of the ingestion at concrete inputs.
use sombreado_service.Base.{
  ℕ, false, Option, none, some, List, [], ◌∷◌, not, ◌==◌, if◌then◌else◌, ◌+◌, ◌-◌, ◌*◌, ◌/◌, ◌≡◌,
  refl, map, ◌⊎◌, arith,
}
use sombreado_service.Base.Order.{sorted, insert}
use sombreado_service.Store.Geometry.{codes}
use sombreado_service.Ingestion.Domain.{RouteDirection, ServiceDirection}
use sombreado_service.Ingestion.Directions.{
  Unicode, classify_route_direction_pair, infer_service_direction_matches, match_services,
  match_two, find_direction_sequence, tokens_of, words_of, looks_like_terminal_departure, contains,
  starts_with, normalize, by_sequence,
}
use sombreado_service.Ingestion.Directions.Matches.{
  directions_of, IsBoth, infer_service_direction_matches-IsBoth,
}
use sombreado_service.Ingestion.Segments.{
  Floats, materialize_route_segments, materialize_from, pieces, split_count,
}
use sombreado_service.Ingestion.Segments.Numbered.{
  IsNumbered, IsCut, materialize_route_segments-IsNumbered,
}
use sombreado_service.Store.Schema.{Codes, empty}
use sombreado_service.Store.Writes.{Export}
use sombreado_service.Store.Lifecycle.Serves.{empty-IsValid}
use sombreado_service.Ingestion.Scrape.{returns, raises_retryable, Attempt, ScrapeCall, run_scrape}
use sombreado_service.Ingestion.Scrape.Outcomes.{
  EndsScrape, run_scrape-EndsScrape, LeavesLease, run_scrape-LeavesLease,
}

abbrev no_float : Codes → Option ℕ
no_float codes = none

abbrev export : Export
export = record {
  routes = some (
      record {
        id = 10;
        code = 110;
        name = 111;
        slug = 112;
        category = none;
        fare_region = none;
        last_changed = none;
        is_current = 1;
      }
      ∷ []);
  route_versions = some (
      record {
        id = 20;
        route_id = 10;
        source_hash = 120;
        map_hash = none;
        page_url = 121;
        map_url = none;
        is_current = 1;
      }
      ∷ []);
  route_directions = some [];
  service_directions = some [];
  route_segments = some [];
}

-- The first attempt times out, the second collects a route.
abbrev tries : List Attempt
tries =
    record { collect = raises_retryable 900; generation_id = 1; created_at = 10; validated_at = 11 }
    ∷ record {
      collect = returns (record { rows = export; hard_failures = []; warnings = 901 ∷ [] });
      generation_id = 2;
      created_at = 20;
      validated_at = 21;
    }
    ∷ []

abbrev call : ScrapeCall
call = record {
  holder = 7;
  run_id = 70;
  started_at = 5;
  claimed_at = 6;
  finished_at = 30;
  pruned_at = 31;
  lease_ttl_seconds = 1200;
  force = false;
  scrape_run_retention_days = 30;
}

run_scrape-EndsScrape_example : EndsScrape tries empty (run_scrape no_float call tries empty)
run_scrape-EndsScrape_example = run_scrape-EndsScrape no_float call tries empty empty-IsValid

run_scrape-LeavesLease_example : LeavesLease 7 (run_scrape no_float call tries empty)
run_scrape-LeavesLease_example = run_scrape-LeavesLease no_float call tries empty

-- Line 1 is "ida", line 2 is "volta"; timetable 3 departs at "ticen", timetable 4 at "lagoa".
abbrev spelled : ℕ → Codes
spelled t =
    if t == 1
    then codes "bus ida"
    else if t == 2
    then codes "bus volta"
    else if t == 3
    then codes "ticen"
    else codes "lagoa"

abbrev plain : Unicode
plain = record {
  spelling = spelled;
  nfkd = λ s. s;
  combining = λ c. false;
  lower = λ s. s;
  is_word = λ c. not (c == 32);
}

abbrev line : ℕ → RouteDirection
line name = record { name = name; coordinates = []; direction_kind = none }

abbrev lines : List RouteDirection
lines = classify_route_direction_pair plain (line 1 ∷ line 2 ∷ [])

abbrev timetable : ℕ → ℕ → ServiceDirection
timetable n label = record {
  sequence = n;
  departure_label = label;
  normalized_name = none;
  direction_kind = none;
}

abbrev timetables : List ServiceDirection
timetables = timetable 2 4 ∷ timetable 1 3 ∷ []

both_lines :
    directions_of (infer_service_direction_matches plain timetables lines) ≡ some 2 ∷ some 1 ∷ []
unfolding infer_service_direction_matches match_services match_two find_direction_sequence
    classify_route_direction_pair tokens_of words_of sorted insert looks_like_terminal_departure
    contains starts_with normalize
both_lines = refl

infer_service_direction_matches-IsBoth_example :
    IsBoth (directions_of (infer_service_direction_matches plain timetables lines))
    ⊎ (directions_of (infer_service_direction_matches plain timetables lines)
        ≡ map (λ s. none) (sorted by_sequence timetables))
infer_service_direction_matches-IsBoth_example =
    infer_service_direction_matches-IsBoth plain timetables lines

-- Points on a line, a distance of one unit for each unit of latitude.
abbrev flat : Floats
flat = record {
  distance = λ a b. b.1 - a.1;
  bearing = λ a b. 0;
  fraction = λ i n. 100 * i / n;
  interpolate = λ a b k. (a.0, a.1 + (b.1 - a.1) * k / 100);
}

abbrev two_pieces : RouteDirection
two_pieces = record {
  name = 1;
  coordinates = (5, 0) ∷ (5, 400) ∷ (5, 500) ∷ [];
  direction_kind = none;
}

two_pieces-materialized :
    map (λ s. s.cumulative_distance_meters) (materialize_route_segments flat two_pieces 250)
    ≡ 200 ∷ 400 ∷ 500 ∷ []
unfolding materialize_route_segments materialize_from pieces split_count
two_pieces-materialized = refl

materialize_route_segments-IsNumbered_example :
    IsNumbered flat 1 0 (materialize_route_segments flat two_pieces 250)
    × IsCut flat 250 1 two_pieces.coordinates (materialize_route_segments flat two_pieces 250)
materialize_route_segments-IsNumbered_example =
    materialize_route_segments-IsNumbered flat two_pieces 250 (omega arith)
