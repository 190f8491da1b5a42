-- ===== src/Ingestion/Http/Tests.antt =====
-- A site whose robots.txt, page 1, allows page 2 and forbids page 3; each first request fails, and the
-- next one is redirected.
use sombreado_service.Base.{◌+◌, ◌*◌, none, some, [], ◌∷◌, ◌==◌, elem, if◌then◌else◌, ◌≡◌, refl}
use sombreado_service.Store.Errors.{Text}
use sombreado_service.Ingestion.Catalogue.{value, raises}
use sombreado_service.Ingestion.Http.{
  asked, redirected, Site, Fetcher, get_text, load_robots, get_response, attempts_left,
}
use sombreado_service.Ingestion.Http.Polite.{asked_pages, Asks, IsAllowed, get_text-Asks}

abbrev site : Site Text
site = record {
  request = λ requests url.
      if elem url (asked_pages requests)
      then ((50 + url) ∷ [], value (100 + url))
      else ([], raises 90);
  parse_robots = λ text. text;
  can_fetch = λ robots url. url == 2;
  robots_url = λ url. 1;
  disallowed = λ url. 91;
  failed_to_fetch = λ url e. 92;
}

abbrev fetcher : Fetcher Text
fetcher = record { robots = none; requests = [] }

page_fetched : get_text site 2 2 fetcher ≡ (
  value 102,
  record {
    robots = some 101;
    requests = redirected 52 ∷ asked 2 ∷ asked 2 ∷ redirected 51 ∷ asked 1 ∷ asked 1 ∷ [];
  },
)
unfolding get_text load_robots get_response attempts_left
page_fetched = refl

page_forbidden :
    get_text site 2 3 fetcher
    ≡ (raises 91, record { robots = some 101; requests = redirected 51 ∷ asked 1 ∷ asked 1 ∷ [] })
unfolding get_text load_robots get_response attempts_left
page_forbidden = refl

get_text-Asks_example :
    Asks
      (IsAllowed site 2 (get_text site 2 2 fetcher).1)
      (2 * (2 + 1))
      fetcher
      (get_text site 2 2 fetcher).1
get_text-Asks_example = get_text-Asks site 2 2 fetcher
