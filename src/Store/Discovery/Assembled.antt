-- ===== src/Store/Discovery/Assembled.antt =====
-- The one round trip of `load_direction_choices_for_route` gives what the reads one after another of
-- src/sombreado/store/discovery.py give.
use sombreado_service.Base.{
  Bool, true, ◌&&◌, Option, none, some, List, [], ◌∷◌, map, ◌==◌, any, filter, find?, leb,
  if◌then◌else◌, ◌≡◌, refl, ap, sym, ◌∙◌, arith, Bool-cases, inl, inr,
}
use sombreado_service.Base.Order.{sorted}
use sombreado_service.Store.Errors.{Text}
use sombreado_service.Store.Schema.{
  Db, RouteDirectionRecord, DatasetRouteVersionRecord, satisfies_constraints,
  satisfies_constraints-unique,
}
use sombreado_service.Store.Schema.Unique.{unique-filter, unique-sorted}
use sombreado_service.Store.Discovery.{
  current_members, first_version, load_current_route_version_id, DirectionChoiceRow, choice_le,
  labels_of, distinct_from, load_direction_choices,
}
use sombreado_service.Store.Discovery.Buckets.{outer_rows, assembled, present}
use sombreado_service.Store.Discovery.Buckets.Grouped.{bucket_of, assembled-outer_rows}
use sombreado_service.Store.Discovery.OneTrip.{
  DirectionChoicesContextRow, or_null_row, directions_of_version, label_options, joined_rows,
  choice_row, failed_choices, is_stale, choices_of, load_direction_choices_for_route, choices_ok,
  route_not_found, route_version_stale,
}

assembled-or_null_row :
    (rs : List (Option RouteDirectionRecord × Option Text))
    → assembled (λ d. d.id) [] (or_null_row rs) ≡ assembled (λ d. d.id) [] rs
unfolding assembled
assembled-or_null_row [] = refl
assembled-or_null_row (r ∷ rs) = refl

present-some : (ls : List Text) → present (map some ls) ≡ ls
present-some [] = refl
present-some (l ∷ ls) = ap (λ xs. l ∷ xs) (present-some ls)

module _ (is_public : Text → Bool) (db : Db) where
  abbrev choice_of : RouteDirectionRecord → DirectionChoiceRow
  choice_of d = choice_row (d, distinct_from [] (labels_of is_public d.id db.service_directions))

  choice_row-bucket_of :
      (ds : List RouteDirectionRecord)
      → map choice_row (map (bucket_of (λ d. d.id) (label_options is_public db)) ds)
        ≡ map choice_of ds
  choice_row-bucket_of [] = refl
  choice_row-bucket_of (d ∷ ds) = λ i.
      choice_row
        (d, distinct_from [] (present-some (labels_of is_public d.id db.service_directions) i))
      ∷ choice_row-bucket_of ds i

filter-and :
    {A : Type 0} (p : A → Bool) (b : Bool) (xs : List A)
    → b ≡ true
    → filter (λ x. p x && b) xs ≡ filter p xs
filter-and p b [] h = refl
filter-and p b (x ∷ xs) h = ground (arith, filter-and p b xs h)

find?-any :
    (r : Text) (ms : List DatasetRouteVersionRecord) (m : DatasetRouteVersionRecord)
    → find? (λ x. x.route_id == r) ms ≡ some m
    → any (λ x. x.route_version_id == m.route_version_id) ms ≡ true
find?-any r [] m h = cc h
find?-any r (x ∷ ms) m h = elim (Bool-cases (x.route_id == r)) [
  | inl p ↦ ground (arith, ap version_of (rw p at h))
  | inr p ↦ ground (arith, find?-any r ms m (rw p at h))
]
  where
    version_of : Option DatasetRouteVersionRecord → Text
    version_of none = 0
    version_of (some y) = y.route_version_id

-- What the reads one after another give: the current version of the route, its check against the
-- requested one, and the choices of that version.
abbrev pub reads_of :
    Text → Text → (Text → Bool) → Option Text → Db → Option Text → DirectionChoicesContextRow
reads_of ida volta is_public requested db none = failed_choices route_not_found
reads_of ida volta is_public requested db (some current) =
    if is_stale requested current then failed_choices route_version_stale else record {
      status = choices_ok;
      route_version_id = some current;
      directions = load_direction_choices ida volta is_public current db;
    }

module _ (ida volta : Text) (is_public : Text → Bool) (db : Db)
    (constraints : satisfies_constraints db ≡ true) where
  -- The rows of the join, assembled, are the choices of a current version.
  assembled-load_direction_choices :
      (v : Text)
      → any (λ m. m.route_version_id == v) (current_members db.current db) ≡ true
      → sorted
          (choice_le ida volta)
          (map choice_row (assembled (λ d. d.id) [] (joined_rows is_public v db)))
        ≡ load_direction_choices ida volta is_public v db
  unfolding joined_rows load_direction_choices
  assembled-load_direction_choices v member =
      let directions = directions_of_version v db in
      ap (sorted (choice_le ida volta)) (
        ap (map choice_row) (
          assembled-or_null_row (outer_rows (label_options is_public db) directions)
          ∙ assembled-outer_rows (λ d. d.id) (label_options is_public db) directions
              (unique-sorted (λ d. d.id) _ _
                (unique-filter (λ d. d.id) _ db.route_directions
                  (satisfies_constraints-unique db constraints))))
        ∙ choice_row-bucket_of is_public db directions
        ∙ ap
            (λ ds.
              map (choice_of is_public db)
                (sorted (λ (a b : RouteDirectionRecord). leb a.sequence b.sequence) ds))
            (sym (filter-and (λ d. d.route_version_id == v) _ db.route_directions member)))

  choices_of-reads_of :
      (requested : Option Text) (r : Text) (o : Option DatasetRouteVersionRecord)
      → find? (λ m. m.route_id == r) (current_members db.current db) ≡ o
      → choices_of ida volta is_public requested db o
        ≡ reads_of ida volta is_public requested db (first_version o)
  choices_of-reads_of requested r none h = refl
  choices_of-reads_of requested r (some m) h =
      ap
        (λ cs.
          if is_stale requested m.route_version_id
          then failed_choices route_version_stale
          else record {
            status = choices_ok;
            route_version_id = some m.route_version_id;
            directions = cs;
          })
        (assembled-load_direction_choices m.route_version_id
          (find?-any r (current_members db.current db) m h))

  -- In a state that meets the constraints, the read of one round trip gives what the reads one after
  -- another give: the current version of the route, route_not_found without one, route_version_stale
  -- where another was asked for, and otherwise the direction choices of that version.
  pub load_direction_choices_for_route-reads_of :
      (route_id : Text) (requested : Option Text)
      → load_direction_choices_for_route ida volta is_public route_id requested db
        ≡ reads_of ida volta is_public requested db (load_current_route_version_id route_id db)
  unfolding load_direction_choices_for_route load_current_route_version_id
  load_direction_choices_for_route-reads_of route_id requested =
      choices_of-reads_of requested route_id
        (find? (λ m. m.route_id == route_id) (current_members db.current db)) refl
