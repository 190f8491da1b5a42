-- ===== src/Ingestion/Catalogue/Scraped.antt =====
-- A scrape, src/sombreado/ingestion/scrape.py, of the catalogue, src/sombreado/ingestion/catalogue.py.
use sombreado_service.Base.{
  ℕ, Bool, true, false, ◌&&◌, Option, none, some, List, [], ◌∷◌, map, any, ◌==◌, ◌≡◌, ap, sym,
  arith,
}
use sombreado_service.Store.Errors.{Text}
use sombreado_service.Store.Schema.{Codes, Db, RunOutcome}
use sombreado_service.Store.Lifecycle.Invariant.{IsValid}
use sombreado_service.Ingestion.Scrape.{
  Attempt, ScrapeCall, Collect, returns, raises_retryable, raises_other, Ending, returned, raised,
  aborted, run_scrape,
}
use sombreado_service.Ingestion.Scrape.Loop.{is_clean, is_accepted, Says, PublishedAs, PointersKept}
use sombreado_service.Ingestion.Scrape.Outcomes.{EndsScrape, run_scrape-EndsScrape}
use sombreado_service.Ingestion.Directions.{Unicode}
use sombreado_service.Ingestion.Canonical.{Python}
use sombreado_service.Ingestion.Catalogue.{Web, Tried, value, raises, collect, route_urls}
use sombreado_service.Ingestion.Catalogue.Listed.{failing, IsListed, collect-IsListed}

-- What one attempt meets: the web at its time, and the generation id and the times it takes.
pub record Visit : Type 0 where
  pub web : Web
  pub generation_id : Text
  pub created_at : ℕ
  pub validated_at : ℕ

abbrev is_nil : List Text → Bool
is_nil [] = true
is_nil (_ ∷ _) = false

module _ (u : Unicode) (py : Python) (source_url : Text) (limit : Option ℕ) where
  abbrev pub attempt_of : Visit → Attempt
  attempt_of v = record {
    collect = collect v.web u py source_url limit;
    generation_id = v.generation_id;
    created_at = v.created_at;
    validated_at = v.validated_at;
  }

  abbrev is_whole_listing : Web → Tried (List Text) → Bool
  is_whole_listing web (raises e) = false
  is_whole_listing web (value []) = false
  is_whole_listing web (value (url ∷ urls)) = is_nil (failing web u (url ∷ urls))

  -- The visit found an index that lists a route, and no listed route failed.
  abbrev pub is_whole : Visit → Bool
  is_whole v = is_whole_listing v.web (route_urls v.web u source_url limit)

  listing-whole :
      (web : Web) (listing : Tried (List Text)) (c : Collect)
      → IsListed web u py listing c
      → is_clean c ≡ true
      → is_whole_listing web listing ≡ true
  listing-whole web (raises e) (returns c) h k = absurd h
  listing-whole web (raises e) (raises_retryable t) h k = cc k
  listing-whole web (raises e) (raises_other t) h k = absurd h
  listing-whole web (value []) (returns c) h k = absurd h
  listing-whole web (value []) (raises_retryable t) h k = cc k
  listing-whole web (value []) (raises_other t) h k = absurd h
  listing-whole web (value (url ∷ urls)) (raises_retryable t) h k = absurd h
  listing-whole web (value (url ∷ urls)) (raises_other t) h k = absurd h
  listing-whole web (value (url ∷ urls)) (returns c) h k = no_failure c.hard_failures k h.0
    where
      no_failure :
          (fs : List Text)
          → elim fs as (λ _. Bool) [ [] ↦ true | _ ∷ _ ↦ false ] ≡ true
          → fs ≡ failing web u (url ∷ urls)
          → is_nil (failing web u (url ∷ urls)) ≡ true
      no_failure [] q e = ap is_nil (sym e)
      no_failure (_ ∷ _) q e = cc q

  abbrev pub is_accepted_visit : Text → List Visit → Bool
  is_accepted_visit g vs = any (λ v. v.generation_id == g && is_whole v) vs

  is_accepted-visit :
      (g : Text) (vs : List Visit)
      → is_accepted g (map attempt_of vs) ≡ true
      → is_accepted_visit g vs ≡ true
  is_accepted-visit g [] h = h
  is_accepted-visit g (v ∷ vs) h = ground (
    arith,
    h,
    is_accepted-visit g vs,
    listing-whole v.web (route_urls v.web u source_url limit) (collect v.web u py source_url limit)
        (collect-IsListed v.web u py source_url limit),
  )

  -- What an outcome says, of scrapes of the catalogue.
  abbrev pub SaysListed : RunOutcome → Option Text → List Visit → Db → Db → Type 0
  SaysListed RunOutcome.published (some g) vs before db =
      (is_accepted_visit g vs ≡ true) × PublishedAs g before db
  SaysListed RunOutcome.published none vs before db = ⊥
  SaysListed RunOutcome.failed g vs before db = PointersKept before db
  SaysListed RunOutcome.lease_held g vs before db = PointersKept before db

  abbrev pub EndsListed : List Visit → Db → Ending × Db → Type 0
  EndsListed vs before (returned o, d) = SaysListed o.status o.generation_id vs before d
  EndsListed vs before (raised e, d) = IsValid d
  EndsListed vs before (aborted t, d) = PointersKept before d

  Says-listed :
      (s : RunOutcome) (g : Option Text) (vs : List Visit) (before db : Db)
      → Says s g (map attempt_of vs) before db
      → SaysListed s g vs before db
  Says-listed RunOutcome.published (some g) vs before db h = (is_accepted-visit g vs h.0, h.1)
  Says-listed RunOutcome.published none vs before db h = h
  Says-listed RunOutcome.failed g vs before db h = h
  Says-listed RunOutcome.lease_held g vs before db h = h

  EndsScrape-listed :
      (vs : List Visit) (before : Db) (r : Ending × Db)
      → EndsScrape (map attempt_of vs) before r
      → EndsListed vs before r
  EndsScrape-listed vs before (returned o, d) h = Says-listed o.status o.generation_id vs before d h
  EndsScrape-listed vs before (raised e, d) h = h
  EndsScrape-listed vs before (aborted t, d) h = h

  -- From a valid store, a scrape of the catalogue that returns "published" made a generation current in
  -- one of its attempts, in which the index listed a route and each listed route was fetched and parsed;
  -- one that returns "failed" or "lease_held" leaves both pointers; and however it ends, the invariant
  -- holds.
  pub run_scrape-EndsListed :
      (float : Codes → Option ℕ) (call : ScrapeCall) (vs : List Visit) (db : Db)
      → IsValid db
      → EndsListed vs db (run_scrape float call (map attempt_of vs) db)
  run_scrape-EndsListed float call vs db valid =
      EndsScrape-listed vs db (run_scrape float call (map attempt_of vs) db)
        (run_scrape-EndsScrape float call (map attempt_of vs) db valid)
