-- ===== src/Store/Discovery/Search/Hinted.antt =====
-- The one round trip of `search_route_candidates` of src/sombreado/store/discovery.py gives the hints that
-- `_direction_hints_by_version` gives.
use sombreado_service.Base.{
  ℕ, Bool, true, false, ◌&&◌, Option, none, some, List, [], ◌∷◌, ◌++◌, map, take, any, filter,
  find?, ◌==◌, ◌≡◌, refl, ap, ◌∙◌, arith, ◌-◌,
}
use sombreado_service.Store.Errors.{Text}
use sombreado_service.Store.Schema.{
  Db, RouteRecord, RouteDirectionRecord, DatasetRouteVersionRecord, unique, satisfies_constraints,
  satisfies_constraints-members,
}
use sombreado_service.Store.Schema.Unique.{same_key, unique-filter, unique-sorted}
use sombreado_service.Store.Discovery.{current_members, distinct_from, labels_of}
use sombreado_service.Store.Discovery.Buckets.{or_null, present}
use sombreado_service.Store.Discovery.Buckets.Grouped.{bucket_of, assembled-outer_rows}
use sombreado_service.Store.Discovery.OneTrip.{directions_of_version, label_options}
use sombreado_service.Store.Discovery.Search.{
  Candidate, RouteCandidateRow, with_route, join_routes, candidate_le, search_candidates,
  hint_options, hinted_rows, candidate_row, search_route_candidates, labels_of_version,
  hints_of_version,
}

present-append : (ls ks : List (Option Text)) → present (ls ++ ks) ≡ present ls ++ present ks
present-append [] ks = refl
present-append (none ∷ ls) ks = present-append ls ks
present-append (some l ∷ ls) ks = ap (λ xs. l ∷ xs) (present-append ls ks)

present-or_null : (ls : List Text) → present (or_null (map some ls)) ≡ ls
present-or_null [] = refl
present-or_null (l ∷ ls) = ap (λ xs. l ∷ xs) (go ls)
  where
    go : (ks : List Text) → present (map some ks) ≡ ks
    go [] = refl
    go (k ∷ ks) = ap (λ xs. k ∷ xs) (go ks)

module _ {A : Type 0} (key : A → ℕ) where
  any-take : (p : A → Bool) (n : ℕ) (xs : List A) → any p xs ≡ false → any p (take n xs) ≡ false
  any-take p n [] h = h
  any-take p n (x ∷ xs) h = ground (arith, any-take p (n - 1) xs)

  unique-take :
      (n : ℕ) (xs : List A)
      → unique (same_key key) xs ≡ true
      → unique (same_key key) (take n xs) ≡ true
  unfolding unique
  unique-take n [] h = h
  unique-take n (x ∷ xs) h =
      ground (arith, any-take (same_key key x) (n - 1) xs, unique-take (n - 1) xs)

any-join_routes :
    (v : Text) (routes : List RouteRecord) (ms : List DatasetRouteVersionRecord)
    → any (λ m. v == m.route_version_id) ms ≡ false
    → any (λ c. v == c.route_version_id) (join_routes routes ms) ≡ false
unfolding join_routes
any-join_routes v routes [] h = h
any-join_routes v routes (m ∷ ms) h =
    go (find? (λ r. r.id == m.route_id) routes) (any-join_routes v routes ms (ground (arith, h)))
  where
    go :
        (o : Option RouteRecord)
        → any (λ c. v == c.route_version_id) (join_routes routes ms) ≡ false
        → any (λ c. v == c.route_version_id) (with_route m o (join_routes routes ms)) ≡ false
    go none k = k
    go (some r) k = ground (arith, h, k)

unique-join_routes :
    (routes : List RouteRecord) (ms : List DatasetRouteVersionRecord)
    → unique (same_key (λ m. m.route_version_id)) ms ≡ true
    → unique (same_key (λ c. c.route_version_id)) (join_routes routes ms) ≡ true
unfolding join_routes unique
unique-join_routes routes [] h = h
unique-join_routes routes (m ∷ ms) h =
    go (find? (λ r. r.id == m.route_id) routes) (unique-join_routes routes ms (ground (arith, h)))
      (any-join_routes m.route_version_id routes ms (ground (arith, h)))
  where
    go :
        (o : Option RouteRecord)
        → unique (same_key (λ c. c.route_version_id)) (join_routes routes ms) ≡ true
        → any (λ c. m.route_version_id == c.route_version_id) (join_routes routes ms) ≡ false
        → unique (same_key (λ c. c.route_version_id)) (with_route m o (join_routes routes ms))
          ≡ true
    go none k q = k
    go (some r) k q = ground (arith, k, q)

any-of_generation :
    (g v : Text) (ms : List DatasetRouteVersionRecord)
    → any (λ m. g == m.generation_id && v == m.route_version_id) ms ≡ false
    → any (λ m. v == m.route_version_id) (filter (λ m. m.generation_id == g) ms) ≡ false
any-of_generation g v [] h = h
any-of_generation g v (m ∷ ms) h = ground (arith, any-of_generation g v ms)

-- In one generation, the members' versions are unique.
unique-of_generation :
    (g : Text) (ms : List DatasetRouteVersionRecord)
    → unique
        (λ a b. a.generation_id == b.generation_id && a.route_version_id == b.route_version_id)
        ms
      ≡ true
    → unique (same_key (λ m. m.route_version_id)) (filter (λ m. m.generation_id == g) ms) ≡ true
unfolding unique
unique-of_generation g [] h = h
unique-of_generation g (m ∷ ms) h =
    ground
      (arith, any-of_generation m.generation_id m.route_version_id ms, unique-of_generation g ms)

module _ (is_public : Text → Bool) (db : Db) where
  present-hint_options :
      (ds : List RouteDirectionRecord)
      → present (hint_options is_public db ds) ≡ labels_of_version is_public db ds
  unfolding hint_options labels_of_version
  present-hint_options [] = refl
  present-hint_options (d ∷ ds) =
      present-append (or_null (label_options is_public db d)) (hint_options is_public db ds) ∙ (λ i.
        present-or_null (labels_of is_public d.id db.service_directions) i
        ++ present-hint_options ds i)

  -- A candidate with the hints of its version.
  abbrev pub hinted : Candidate → RouteCandidateRow
  hinted c = candidate_row (c, hints_of_version is_public db c.route_version_id)

  candidate_row-hinted :
      (cs : List Candidate)
      → map candidate_row (
          map
            (bucket_of
              (λ c. c.route_version_id)
              (λ c. hint_options is_public db (directions_of_version c.route_version_id db)))
            cs)
        ≡ map hinted cs
  unfolding hints_of_version
  candidate_row-hinted [] = refl
  candidate_row-hinted (c ∷ cs) = λ i.
      candidate_row
        (c, distinct_from [] (present-hint_options (directions_of_version c.route_version_id db) i))
      ∷ candidate_row-hinted cs i

  module _ (constraints : satisfies_constraints db ≡ true) where
    current_members-unique :
        (o : Option Text)
        → unique (same_key (λ m. m.route_version_id)) (current_members o db) ≡ true
    unfolding unique
    current_members-unique none = refl
    current_members-unique (some g) =
        unique-of_generation g db.members (satisfies_constraints-members db constraints)

    search_candidates-unique :
        (ilike : Text → Bool) (limit : ℕ)
        → unique (same_key (λ c. c.route_version_id)) (search_candidates ilike limit db) ≡ true
    unfolding search_candidates
    search_candidates-unique ilike limit =
        unique-take (λ c. c.route_version_id) limit _
          (unique-sorted (λ c. c.route_version_id) candidate_le _
            (unique-filter (λ c. c.route_version_id) _
              (join_routes db.routes (current_members db.current db))
              (unique-join_routes db.routes (current_members db.current db)
                (current_members-unique db.current))))

    -- In a state that meets the constraints, the search in one round trip returns the candidates of the
    -- select, in its order and none twice, each with the hints that the separate read of its version
    -- gives: its public labels by direction and timetable, each once.
    pub search_route_candidates-hinted :
        (ilike : Text → Bool) (limit : ℕ)
        → search_route_candidates is_public ilike limit db
          ≡ map hinted (search_candidates ilike limit db)
    unfolding search_route_candidates hinted_rows
    search_route_candidates-hinted ilike limit =
        ap (map candidate_row) (
          assembled-outer_rows (λ c. c.route_version_id) _ (search_candidates ilike limit db)
            (search_candidates-unique ilike limit))
        ∙ candidate_row-hinted (search_candidates ilike limit db)
