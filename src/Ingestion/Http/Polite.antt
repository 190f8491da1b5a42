-- ===== src/Ingestion/Http/Polite.antt =====
-- What src/sombreado/ingestion/http.py asks of a site.
use sombreado_service.Base.{
  ℕ, zero, suc, ◌+◌, ◌*◌, ◌≤◌, true, Option, none, some, List, [], ◌∷◌, ◌++◌, All, All-append,
  All-weaken, length, ◌≡◌, refl, ap, sym, ◌∙◌, arith, ◌⊎◌, inl, inr, Bool-cases,
}
use mathlib.Core.List.{append_assoc}
use sombreado_service.Store.Errors.{Text}
use sombreado_service.Ingestion.Catalogue.{Tried, value, raises}
use sombreado_service.Ingestion.Http.{
  Site, Fetcher, Request, asked, redirected, followed, requested, after_attempt, attempts_left,
  get_response, robots_loaded, load_robots_from, load_robots, if_allowed, get_text,
}

-- The pages that the fetcher asked for, without those that the client was redirected to.
abbrev pub asked_pages : List Request → List Text
asked_pages [] = []
asked_pages (asked url ∷ rs) = url ∷ asked_pages rs
asked_pages (redirected url ∷ rs) = asked_pages rs

length-append : (xs ys : List Text) → length (xs ++ ys) ≡ length xs + length ys
length-append [] ys = omega arith
length-append (x ∷ xs) ys = omega (arith, length-append xs ys)

asked_pages-append :
    (xs ys : List Request) → asked_pages (xs ++ ys) ≡ asked_pages xs ++ asked_pages ys
asked_pages-append [] ys = refl
asked_pages-append (asked u ∷ xs) ys = ap (λ us. u ∷ us) (asked_pages-append xs ys)
asked_pages-append (redirected u ∷ xs) ys = asked_pages-append xs ys

followed-append :
    (urls : List Text) (xs ys : List Request) → followed urls (xs ++ ys) ≡ followed urls xs ++ ys
followed-append [] xs ys = refl
followed-append (u ∷ urls) xs ys = followed-append urls (redirected u ∷ xs) ys

asked_pages-followed :
    (urls : List Text) (xs : List Request) → asked_pages (followed urls xs) ≡ asked_pages xs
asked_pages-followed [] xs = refl
asked_pages-followed (u ∷ urls) xs = asked_pages-followed urls (redirected u ∷ xs)

module _ {Robots : Type 0} where
  -- The pages that were asked for are at most this many, and each one so.
  abbrev pub Asks : (Text → Type 0) → ℕ → Fetcher Robots → Fetcher Robots → Type 0
  Asks P n s t =
      (new : List Request) × (t.requests ≡ new ++ s.requests)
      × All P (asked_pages new)
      × (length (asked_pages new) ≤ n)

  Asks-trans :
      (P : Text → Type 0) (m n : ℕ) (s t u : Fetcher Robots)
      → Asks P m s t
      → Asks P n t u
      → Asks P (m + n) s u
  Asks-trans P m n s t u h k = (
    k.0 ++ h.0,
    k.1 ∙ ap (λ rs. k.0 ++ rs) h.1 ∙ sym (append_assoc k.0 h.0 s.requests),
    rw (asked_pages-append k.0 h.0) (All-append P (asked_pages k.0) (asked_pages h.0) k.2 h.2),
    omega (
      arith,
      h.3,
      k.3,
      length-append (asked_pages k.0) (asked_pages h.0),
      ap length (asked_pages-append k.0 h.0),
    ),
  )

  Asks-weaken :
      (P Q : Text → Type 0) (m n : ℕ) (s t : Fetcher Robots)
      → ((u : Text) → P u → Q u)
      → m ≤ n
      → Asks P m s t
      → Asks Q n s t
  Asks-weaken P Q m n s t f e h =
      (h.0, h.1, All-weaken P Q (asked_pages h.0) f h.2, omega (arith, e, h.3))

  -- Requests of one page leave robots.txt as it was.
  abbrev AsksFor : Text → ℕ → Fetcher Robots → Fetcher Robots → Type 0
  AsksFor url n s t = Asks (λ u. u ≡ url) n s t × (t.robots ≡ s.robots)

  requested-AsksFor :
      (url : Text) (urls : List Text) (left : ℕ) (s : Fetcher Robots)
      → AsksFor url (suc left) s (requested url urls s)
  requested-AsksFor url urls left s =
      let pages = asked_pages-followed urls (asked url ∷ []) in
      (
        (
          followed urls (asked url ∷ []),
          followed-append urls (asked url ∷ []) s.requests,
          rw pages (refl, tt),
          rw pages (omega arith),
        ),
        refl,
      )

  after_attempt-AsksFor :
      (url : Text) (urls : List Text) (left : ℕ) (s : Fetcher Robots)
      (again : Text → Fetcher Robots → Tried Text × Fetcher Robots) (answer : Tried Text)
      → ((e : Text) → AsksFor url left (requested url urls s) (again e (requested url urls s)).1)
      → AsksFor url (suc left) s (after_attempt again (requested url urls s) answer).1
  after_attempt-AsksFor url urls left s again (value text) h = requested-AsksFor url urls left s
  after_attempt-AsksFor url urls left s again (raises e) h =
      let end = (again e (requested url urls s)).1 in
      (
        Asks-weaken _ _ (1 + left) (suc left) s end (λ u p. p) (omega arith)
            (Asks-trans _ 1 left s (requested url urls s) end (requested-AsksFor url urls 0 s).0
              (h e).0),
        (h e).1,
      )

module _ {Robots : Type 0} (site : Site Robots) where
  attempts_left-AsksFor :
      (left : ℕ) (url last_error : Text) (s : Fetcher Robots)
      → AsksFor url left s (attempts_left site left url last_error s).1
  unfolding attempts_left
  attempts_left-AsksFor zero url last_error s = (([], refl, tt, omega arith), refl)
  attempts_left-AsksFor (suc left) url last_error s =
      let answer = site.request s.requests url in
      after_attempt-AsksFor url answer.0 left s (attempts_left site left url) answer.1
        (λ e. attempts_left-AsksFor left url e (requested url answer.0 s))

  -- The page is robots.txt, or the robots.txt that is loaded allows it.
  abbrev pub IsAllowed : Text → Fetcher Robots → Text → Type 0
  IsAllowed url t u =
      (u ≡ site.robots_url url)
      ⊎ ((robots : Robots) × (t.robots ≡ some robots) × (site.can_fetch robots u ≡ true))

  abbrev IsLoaded : Tried Robots × Fetcher Robots → Type 0
  IsLoaded (value robots, t) = t.robots ≡ some robots
  IsLoaded (raises e, t) = Unit

  module _ (retries : ℕ) where
    robots_loaded-Asks :
        (P : Text → Type 0) (n : ℕ) (s : Fetcher Robots) (r : Tried Text × Fetcher Robots)
        → Asks P n s r.1
        → Asks P n s (robots_loaded site retries r).1 × IsLoaded (robots_loaded site retries r)
    robots_loaded-Asks P n s (value text, t) h = (h, refl)
    robots_loaded-Asks P n s (raises e, t) h = (h, tt)

    load_robots_from-Asks :
        (o : Option Robots) (url : Text) (s : Fetcher Robots)
        → s.robots ≡ o
        → Asks
            (λ u. u ≡ site.robots_url url)
            (retries + 1)
            s
            (load_robots_from site retries o url s).1
          × IsLoaded (load_robots_from site retries o url s)
    unfolding get_response
    load_robots_from-Asks (some robots) url s h = (([], refl, tt, omega arith), h)
    load_robots_from-Asks none url s h =
        robots_loaded-Asks (λ u. u ≡ site.robots_url url) (retries + 1) s _
          (attempts_left-AsksFor (retries + 1) (site.robots_url url) 0 s).0

    if_allowed-Asks :
        (url : Text) (s : Fetcher Robots) (r : Tried Robots × Fetcher Robots)
        → Asks (λ u. u ≡ site.robots_url url) (retries + 1) s r.1
        → IsLoaded r
        → Asks
            (IsAllowed url (if_allowed site retries url r).1)
            (2 * (retries + 1))
            s
            (if_allowed site retries url r).1
    unfolding get_response
    if_allowed-Asks url s (raises e, t) h k =
        Asks-weaken _ _ (retries + 1) (2 * (retries + 1)) s t (λ u p. inl p) (omega arith) h
    if_allowed-Asks url s (value robots, t) h k = elim (Bool-cases (site.can_fetch robots url)) [
      | inr p ↦
          rw p
            (Asks-weaken _ _ (retries + 1) (2 * (retries + 1)) s t (λ u q. inl q) (omega arith) h)
      | inl p ↦ rw p (
          let f = attempts_left-AsksFor (retries + 1) url 0 t in
          let end = (attempts_left site (retries + 1) url 0 t).1 in
          Asks-weaken _ _ ((retries + 1) + (retries + 1)) (2 * (retries + 1)) s end (λ u q. q)
            (omega arith)
            (Asks-trans (IsAllowed url end) (retries + 1) (retries + 1) s t end
              (Asks-weaken _ _ (retries + 1) (retries + 1) s t (λ u q. inl q) (omega arith) h)
              (Asks-weaken _ _ (retries + 1) (retries + 1) t end
                (λ u q. inr (robots, f.1 ∙ k, ap (site.can_fetch robots) q ∙ p)) (omega arith)
                f.0)))
    ]

    -- A call for a page asks the client at most two times as often as there are attempts, each time for
    -- the site's robots.txt or for a page that the robots.txt then loaded allows. Pages that the client is
    -- redirected to are not counted, and need not be allowed.
    pub get_text-Asks :
        (url : Text) (s : Fetcher Robots)
        → Asks
            (IsAllowed url (get_text site retries url s).1)
            (2 * (retries + 1))
            s
            (get_text site retries url s).1
    unfolding get_text load_robots
    get_text-Asks url s =
        let h = load_robots_from-Asks s.robots url s refl in
        if_allowed-Asks url s (load_robots_from site retries s.robots url s) h.0 h.1
