-- ===== src/Ingestion/Http.antt =====
-- `AsyncHttpFetcher` of src/sombreado/ingestion/http.py: each page is asked for only where robots.txt
-- allows it, and a request that fails is made again. One call is modelled by itself, without what other
-- calls ask meanwhile; the pauses are left out. The client follows redirects by itself. What a request raises is an `httpx.HTTPError`, of the client
-- or of `raise_for_status`.
pub mod Polite
mod Tests
use sombreado_service.Base.{
  ℕ, zero, suc, ◌+◌, Bool, true, false, Option, none, some, List, [], ◌∷◌, if◌then◌else◌,
}
use sombreado_service.Store.Errors.{Text}
use sombreado_service.Ingestion.Catalogue.{Tried, value, raises}

-- A page that the fetcher asked the client for, or one that the client was then redirected to.
pub data Request : Type 0 where
  asked redirected : Text → Request

-- `client.get` and `raise_for_status`: the pages that the client is redirected to, in order, and what is
-- returned or raised, which may depend on the requests so far; `robotparser`; `urljoin` with
-- "/robots.txt"; and the texts of the errors.
pub record Site (Robots : Type 0) : Type 0 where
  pub request : List Request → Text → List Text × Tried Text
  pub parse_robots : Text → Robots
  pub can_fetch : Robots → Text → Bool
  pub robots_url : Text → Text
  pub disallowed : Text → Text
  pub failed_to_fetch : Text → Text → Text

-- The fetcher, with all requests that it has made, the last one first.
pub record Fetcher (Robots : Type 0) : Type 0 where
  pub robots : Option Robots
  pub requests : List Request

-- `follow_redirects=True`
abbrev pub followed : List Text → List Request → List Request
followed [] requests = requests
followed (url ∷ urls) requests = followed urls (redirected url ∷ requests)

module _ {Robots : Type 0} where
  abbrev pub requested : Text → List Text → Fetcher Robots → Fetcher Robots
  requested url redirects s = record s { requests = followed redirects (asked url ∷ s.requests) }

  -- An attempt that raised is followed by the ones that are left.
  abbrev pub after_attempt :
      (Text → Fetcher Robots → Tried Text × Fetcher Robots)
      → Fetcher Robots
      → Tried Text
      → Tried Text × Fetcher Robots
  after_attempt again s (value text) = (value text, s)
  after_attempt again s (raises e) = again e s

module _ {Robots : Type 0} (site : Site Robots) where
  -- The attempts that are left, after one that raised `last_error`.
  unfoldable pub attempts_left : ℕ → Text → Text → Fetcher Robots → Tried Text × Fetcher Robots
  attempts_left zero url last_error s = (raises (site.failed_to_fetch url last_error), s)
  attempts_left (suc left) url last_error s =
      let answer = site.request s.requests url in
      after_attempt (attempts_left left url) (requested url answer.0 s) answer.1

module _ {Robots : Type 0} (site : Site Robots) (retries : ℕ) where
  -- `_get_response`; no error is the text 0.
  unfoldable pub get_response : Text → Fetcher Robots → Tried Text × Fetcher Robots
  get_response url s = attempts_left site (retries + 1) url 0 s

  abbrev pub robots_loaded : Tried Text × Fetcher Robots → Tried Robots × Fetcher Robots
  robots_loaded (value text, s) =
      (value (site.parse_robots text), record s { robots = some (site.parse_robots text) })
  robots_loaded (raises e, s) = (raises e, s)

  abbrev pub load_robots_from :
      Option Robots → Text → Fetcher Robots → Tried Robots × Fetcher Robots
  load_robots_from (some robots) url s = (value robots, s)
  load_robots_from none url s = robots_loaded (get_response (site.robots_url url) s)

  -- `_load_robots`
  unfoldable pub load_robots : Text → Fetcher Robots → Tried Robots × Fetcher Robots
  load_robots url s = load_robots_from s.robots url s

  -- `assert_allowed`, and then the request.
  abbrev pub if_allowed : Text → Tried Robots × Fetcher Robots → Tried Text × Fetcher Robots
  if_allowed url (value robots, s) =
      if site.can_fetch robots url then get_response url s else (raises (site.disallowed url), s)
  if_allowed url (raises e, s) = (raises e, s)

  unfoldable pub get_text : Text → Fetcher Robots → Tried Text × Fetcher Robots
  get_text url s = if_allowed url (load_robots url s)
