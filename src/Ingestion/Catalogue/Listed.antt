-- ===== src/Ingestion/Catalogue/Listed.antt =====
-- What src/sombreado/ingestion/catalogue.py collects of the routes that the catalogue lists.
use sombreado_service.Base.{
  ℕ, suc, ◌+◌, Option, none, some, List, [], ◌∷◌, map, length, ◌≡◌, inl, inr, ◌⊎◌, refl, ap, sym,
  ◌∙◌, arith,
}
use mathlib.Core.Path.{subst}
use sombreado_service.Base.Order.{sorted, insert}
use sombreado_service.Store.Errors.{Text}
use sombreado_service.Store.Writes.{Export, CanonicalRows}
use sombreado_service.Ingestion.Scrape.{Collect, returns, raises_retryable}
use sombreado_service.Ingestion.Domain.{RouteSnapshot}
use sombreado_service.Ingestion.Directions.{Unicode}
use sombreado_service.Ingestion.Canonical.{Python, snapshots_to_canonical_rows}
use sombreado_service.Ingestion.Canonical.Coherent.{IsCoherent}
use sombreado_service.Ingestion.Canonical.Complete.{
  IsConverted, snapshots_to_canonical_rows-IsConverted,
}
use sombreado_service.Ingestion.Catalogue.{
  Web, Tried, value, raises, FetchResult, Gathered, gather, gathered, index_le, fetch_route,
  fetch_one, fetch_all, result_of, collect, collect_listed, collection_of, converted, route_urls,
  export_of, empty_rows,
}

module _ {A B : Type 0} where
  length-map : (f : A → B) (xs : List A) → length (map f xs) ≡ length xs
  length-map f [] = refl
  length-map f (x ∷ xs) = ap suc (length-map f xs)

-- A route that raises, in front of the failing ones behind it, and the snapshot of one that does not.
abbrev pub failing_with : Text → Tried (RouteSnapshot × List Text) → List Text → List Text
failing_with url (value p) rest = rest
failing_with url (raises e) rest = url ∷ rest

abbrev pub snapshots_with :
    Tried (RouteSnapshot × List Text) → List RouteSnapshot → List RouteSnapshot
snapshots_with (value p) rest = p.0 ∷ rest
snapshots_with (raises e) rest = rest

length-snapshots_with :
    (t : Tried (RouteSnapshot × List Text)) (url : Text) (fs : List Text) (ss : List RouteSnapshot)
    (n : ℕ)
    → (fs ≡ [] → length ss ≡ n)
    → failing_with url t fs ≡ []
    → length (snapshots_with t ss) ≡ suc n
length-snapshots_with (value p) url fs ss n h e = ap suc (h e)
length-snapshots_with (raises x) url fs ss n h e = cc e

module _ (web : Web) (u : Unicode) where
  -- The listed routes whose fetch or parse raises, and the snapshots of the others.
  abbrev pub failing : List Text → List Text
  failing [] = []
  failing (url ∷ urls) = failing_with url (fetch_route web u url) (failing urls)

  abbrev pub snapshots_of : List Text → List RouteSnapshot
  snapshots_of [] = []
  snapshots_of (url ∷ urls) = snapshots_with (fetch_route web u url) (snapshots_of urls)

  Tried-cases :
      (t : Tried (RouteSnapshot × List Text))
      → ((p : RouteSnapshot × List Text) × (t ≡ value p)) ⊎ ((e : Text) × (t ≡ raises e))
  Tried-cases (value p) = inl (p, refl)
  Tried-cases (raises e) = inr (e, refl)

  fetch_one-index : (i : ℕ) (url : Text) → (fetch_one web u i url).index ≡ i
  unfolding fetch_one
  fetch_one-index i url = elim (Tried-cases (fetch_route web u url)) [
    | inl p ↦ rw p.1 refl
    | inr p ↦ rw p.1 refl
  ]

  insert-fetch_all :
      (i : ℕ) (r : FetchResult) (urls : List Text)
      → r.index ≡ i
      → insert index_le r (fetch_all web u (i + 1) urls) ≡ r ∷ fetch_all web u (i + 1) urls
  unfolding insert fetch_all
  insert-fetch_all i r [] h = refl
  insert-fetch_all i r (url ∷ urls) h = ground (arith, h, fetch_one-index (i + 1) url)

  -- The results are in the order of the listing already.
  sorted-fetch_all :
      (i : ℕ) (urls : List Text) → sorted index_le (fetch_all web u i urls) ≡ fetch_all web u i urls
  unfolding sorted fetch_all
  sorted-fetch_all i [] = refl
  sorted-fetch_all i (url ∷ urls) =
      ap (insert index_le (fetch_one web u i url)) (sorted-fetch_all (i + 1) urls)
      ∙ insert-fetch_all i (fetch_one web u i url) urls (fetch_one-index i url)

  gather-failing :
      (i : ℕ) (url : Text) (t : Tried (RouteSnapshot × List Text)) (later : Gathered)
      → (gather
          (result_of web u i url t)
          (result_of web u i url t).error
          (result_of web u i url t).snapshot
          later).hard_failures
        ≡ failing_with url t later.hard_failures
  gather-failing i url (value p) later = refl
  gather-failing i url (raises e) later = refl

  gather-snapshots :
      (i : ℕ) (url : Text) (t : Tried (RouteSnapshot × List Text)) (later : Gathered)
      → (gather
          (result_of web u i url t)
          (result_of web u i url t).error
          (result_of web u i url t).snapshot
          later).snapshots
        ≡ snapshots_with t later.snapshots
  gather-snapshots i url (value p) later = refl
  gather-snapshots i url (raises e) later = refl

  gathered-failing :
      (i : ℕ) (urls : List Text) → (gathered (fetch_all web u i urls)).hard_failures ≡ failing urls
  unfolding gathered fetch_all fetch_one
  gathered-failing i [] = refl
  gathered-failing i (url ∷ urls) =
      gather-failing i url (fetch_route web u url) (gathered (fetch_all web u (i + 1) urls))
      ∙ ap (failing_with url (fetch_route web u url)) (gathered-failing (i + 1) urls)

  gathered-snapshots :
      (i : ℕ) (urls : List Text) → (gathered (fetch_all web u i urls)).snapshots ≡ snapshots_of urls
  unfolding gathered fetch_all fetch_one
  gathered-snapshots i [] = refl
  gathered-snapshots i (url ∷ urls) =
      gather-snapshots i url (fetch_route web u url) (gathered (fetch_all web u (i + 1) urls))
      ∙ ap (snapshots_with (fetch_route web u url)) (gathered-snapshots (i + 1) urls)

  length-snapshots_of :
      (urls : List Text) → failing urls ≡ [] → length (snapshots_of urls) ≡ length urls
  length-snapshots_of [] h = refl
  length-snapshots_of (url ∷ urls) h =
      length-snapshots_with (fetch_route web u url) url (failing urls) (snapshots_of urls)
        (length urls) (length-snapshots_of urls) h

  -- The rows of a collection with these hard failures.
  abbrev pub Rows : List Text → List Text → Export → Type 0
  Rows urls [] e =
      (rows : CanonicalRows) × (e ≡ export_of rows)
      × IsCoherent rows
      × (length rows.routes ≡ length urls)
      × (map (λ r. r.code) rows.routes ≡ map (λ s. s.route.code) (snapshots_of urls))
  Rows urls (_ ∷ _) e = e ≡ empty_rows

  module _ (py : Python) where
    -- What is collected of a listing.
    abbrev pub IsListed : Tried (List Text) → Collect → Type 0
    IsListed (raises e) (raises_retryable t) = t ≡ e
    IsListed (value []) (raises_retryable t) = t ≡ web.catalogue_empty
    IsListed (value (url ∷ urls)) (returns c) =
        (c.hard_failures ≡ failing (url ∷ urls)) × Rows (url ∷ urls) c.hard_failures c.rows
    IsListed _ _ = ⊥

    converted-IsListed :
        (url : Text) (urls ws : List Text) (o : Option CanonicalRows)
        → [] ≡ failing (url ∷ urls)
        → IsConverted py (snapshots_of (url ∷ urls)) o
        → IsListed (value (url ∷ urls)) (converted web u py ws o)
    converted-IsListed url urls ws none e h = absurd h
    converted-IsListed url urls ws (some rows) e h = (
      e,
      (
        rows,
        refl,
        h.0,
        sym (length-map (λ r. r.code) rows.routes)
            ∙ ap length h.1
            ∙ length-map (λ s. s.route.code) (snapshots_of (url ∷ urls))
            ∙ length-snapshots_of (url ∷ urls) (sym e),
        h.1,
      ),
    )

    collection_of-IsListed :
        (url : Text) (urls fs : List Text) (g : Gathered)
        → fs ≡ failing (url ∷ urls)
        → g.snapshots ≡ snapshots_of (url ∷ urls)
        → IsListed (value (url ∷ urls)) (collection_of web u py fs g)
    collection_of-IsListed url urls [] g e h =
        converted-IsListed url urls g.warnings (snapshots_to_canonical_rows py g.snapshots) e (
          subst (λ ss. IsConverted py ss (snapshots_to_canonical_rows py g.snapshots)) h
            (snapshots_to_canonical_rows-IsConverted py g.snapshots))
    collection_of-IsListed url urls (f ∷ fs) g e h = (e, refl)

    collect_listed-IsListed :
        (listing : Tried (List Text)) → IsListed listing (collect_listed web u py listing)
    collect_listed-IsListed (raises e) = refl
    collect_listed-IsListed (value []) = refl
    collect_listed-IsListed (value (url ∷ urls)) =
        let results = fetch_all web u 1 (url ∷ urls) in
        let same = ap gathered (sorted-fetch_all 1 (url ∷ urls)) in
        let g = gathered (sorted index_le results) in
        collection_of-IsListed url urls g.hard_failures g
          (ap (λ x. x.hard_failures) same ∙ gathered-failing 1 (url ∷ urls))
          (ap (λ x. x.snapshots) same ∙ gathered-snapshots 1 (url ∷ urls))

    -- The collection raises only where the index could not be fetched or lists no route. Otherwise it
    -- returns: its hard failures are the listed routes that could not be fetched or parsed, in the order
    -- of the listing; with one there are no rows; with none the rows are coherent, and they have one route
    -- for each listed one, in the order of the listing.
    pub collect-IsListed :
        (source_url : Text) (limit : Option ℕ)
        → IsListed (route_urls web u source_url limit) (collect web u py source_url limit)
    unfolding collect
    collect-IsListed source_url limit = collect_listed-IsListed (route_urls web u source_url limit)
