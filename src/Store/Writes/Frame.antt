-- ===== src/Store/Writes/Frame.antt =====
-- What the inserts of an export leave alone: the lifecycle, the rows of other generations, and the
-- attributes of the routes that are there.
use sombreado_service.Base.{
  ℕ, ◌≡◌, refl, ◌∙◌, Bool, false, Option, none, some, List, [], ◌∷◌, ◌++◌, ◌==◌, any, filter, find?,
  arith, Bool-cases, inl, inr,
}
use sombreado_service.Store.Errors.{Text, StoreError}
use sombreado_service.Store.Schema.{
  Codes, Db, RouteRecord, RouteVersionRecord, DatasetGenerationRecord, DatasetRouteVersionRecord,
  Lease, ServiceDirectionRecord, AdviceSegment,
}
use sombreado_service.Store.Tx.{or_raise, execute, for_each}
use sombreado_service.Store.Hoare.{Keeps, Keeps-bind, Keeps-for_each, Checked, Checked-execute}
use sombreado_service.Store.Writes.{
  DirectionRow, SegmentRow, CanonicalRows, add_route, insert_routes, add_generation_route,
  insert_generation_routes, add_route_version, insert_route_versions, add_route_direction,
  insert_route_directions, add_service_direction, insert_service_directions, add_segment,
  insert_segments, segment_payload, add_member, insert_membership, expected_counts,
  insert_expected_counts, insert_staged_rows, advice_segments_by_direction,
}

-- A fact that every insert for generation `g` keeps.
pub record IsInsertFrame {ℓ} (g : Text) (Q : Db → Type ℓ) : Type ℓ where
  pub routes : (row : RouteRecord) (db : Db) → Q db → Q (add_route row db)
  pub snapshots : (row : RouteRecord) (db : Db) → Q db → Q (add_generation_route g row db)
  pub versions : (row : RouteVersionRecord) (db : Db) → Q db → Q (add_route_version row db)
  pub directions :
      (advice : List (Text × List AdviceSegment)) (row : DirectionRow) (db : Db)
      → Q db
      → Q (add_route_direction advice row db)
  pub services : (row : ServiceDirectionRecord) (db : Db) → Q db → Q (add_service_direction row db)
  pub segments : (row : SegmentRow) (wkt : Codes) (db : Db) → Q db → Q (add_segment row wkt db)
  pub members : (row : RouteVersionRecord) (db : Db) → Q db → Q (add_member g row db)
  pub counts :
      (rows : CanonicalRows) (db : Db)
      → Q db
      → Q (record db { counts = db.counts ++ expected_counts g rows ∷ [] })

Keeps-or_raise {ℓ} :
    {A : Type 0} (P : Db → Type ℓ) (o : Option A) (e : StoreError) → Keeps P (or_raise o e)
Keeps-or_raise P none e db h = tt
Keeps-or_raise P (some a) e db h = h

module _ {ℓ} (g : Text) (Q : Db → Type ℓ) (frame : IsInsertFrame g Q) where
  rows-Keeps :
      {A : Type 0} (rows : List A) (f : A → Db → Db)
      → ((row : A) (db : Db) → Q db → Q (f row db))
      → Keeps (Checked Q) (for_each rows (λ row. execute (f row)))
  rows-Keeps rows f k =
      Keeps-for_each (Checked Q) rows (λ row. execute (f row))
        (λ row. Checked-execute Q (f row) (k row))

  pub insert_staged_rows-Keeps :
      (float : Codes → Option ℕ) (rows : CanonicalRows)
      → Keeps (Checked Q) (insert_staged_rows float g rows)
  unfolding insert_staged_rows insert_routes insert_generation_routes insert_route_versions
      insert_route_directions insert_service_directions insert_segments insert_membership
      insert_expected_counts
  insert_staged_rows-Keeps float rows =
      Keeps-bind (Checked Q) _ _ (rows-Keeps rows.routes add_route frame.routes) λ _.
        Keeps-bind (Checked Q) _ _ (rows-Keeps rows.routes (add_generation_route g) frame.snapshots)
          λ _.
            Keeps-bind (Checked Q) _ _
              (rows-Keeps rows.route_versions add_route_version frame.versions)
              λ _.
                Keeps-bind (Checked Q) _ _
                  (Keeps-or_raise (Checked Q)
                    (advice_segments_by_direction float rows.route_segments) _)
                  λ advice.
                    Keeps-bind (Checked Q) _ _
                      (rows-Keeps rows.route_directions (add_route_direction advice)
                        (frame.directions advice))
                      λ _.
                        Keeps-bind (Checked Q) _ _
                          (rows-Keeps rows.service_directions add_service_direction frame.services)
                          λ _.
                            Keeps-bind (Checked Q) _ _
                              (Keeps-bind (Checked Q) _ _
                                (Keeps-or_raise (Checked Q) (segment_payload rows.route_segments) _)
                                (λ payload.
                                  rows-Keeps payload (λ p. add_segment p.0 p.1)
                                    (λ p. frame.segments p.0 p.1)))
                              λ _.
                                Keeps-bind (Checked Q) _ _
                                  (rows-Keeps rows.route_versions (add_member g) frame.members)
                                  (λ _. Checked-execute Q _ (frame.counts rows))

-- The tables that a staging must leave to passengers.
pub record Visible : Type 0 where
  pub generations : List DatasetGenerationRecord
  pub current : Option Text
  pub previous : Option Text
  pub lease : Option Lease
  pub routes : List RouteRecord
  pub members : List DatasetRouteVersionRecord

abbrev pub visible : Db → Visible
visible db = record {
  generations = db.generations;
  current = db.current;
  previous = db.previous;
  lease = db.lease;
  routes = db.routes;
  members = db.members;
}

-- The lifecycle, the attributes of the routes that are there, and the members of the generations
-- other than `g` are as before.
pub record IsUntouched (g : Text) (before db : Visible) : Type 0 where
  pub generations : db.generations ≡ before.generations
  pub current : db.current ≡ before.current
  pub previous : db.previous ≡ before.previous
  pub lease : db.lease ≡ before.lease
  pub routes :
      (i : Text) (r : RouteRecord)
      → find? (λ x. x.id == i) before.routes ≡ some r
      → find? (λ x. x.id == i) db.routes ≡ some r
  pub members :
      (h : Text)
      → (g == h) ≡ false
      → filter (λ m. m.generation_id == h) db.members
        ≡ filter (λ m. m.generation_id == h) before.members

abbrev pub Untouched : Text → Db → Db → Type 0
Untouched g before db = IsUntouched g (visible before) (visible db)

find?-append {ℓ} :
    {A : Type ℓ} (p : A → Bool) (xs ys : List A) (a : A)
    → find? p xs ≡ some a
    → find? p (xs ++ ys) ≡ some a
find?-append p [] ys a h = cc
find?-append p (x ∷ xs) ys a h = ground (arith, find?-append p xs ys a)

filter-add_other :
    (g h : Text) (ms : List DatasetRouteVersionRecord) (m : DatasetRouteVersionRecord)
    → m.generation_id ≡ g
    → (g == h) ≡ false
    → filter (λ x. x.generation_id == h) (ms ++ m ∷ []) ≡ filter (λ x. x.generation_id == h) ms
filter-add_other g h [] m e ne = ground arith
filter-add_other g h (x ∷ ms) m e ne = ground (arith, filter-add_other g h ms m e ne)

add_route-Untouched :
    (g : Text) (before : Db) (row : RouteRecord) (db : Db)
    → Untouched g before db
    → Untouched g before (add_route row db)
unfolding add_route
add_route-Untouched g before row db q = elim (Bool-cases (any (λ x. x.id == row.id) db.routes)) [
  | inl e ↦ rw e q
  | inr e ↦ rw e (record {
    generations = q.generations;
    current = q.current;
    previous = q.previous;
    lease = q.lease;
    routes = λ i r h.
        find?-append (λ (x : RouteRecord). x.id == i) db.routes (row ∷ []) r (q.routes i r h);
    members = q.members;
  })
]

add_member-Untouched :
    (g : Text) (before : Db) (row : RouteVersionRecord) (db : Db)
    → Untouched g before db
    → Untouched g before (add_member g row db)
unfolding add_member
add_member-Untouched g before row db q = record {
  generations = q.generations;
  current = q.current;
  previous = q.previous;
  lease = q.lease;
  routes = q.routes;
  members = λ h ne. filter-add_other g h db.members _ refl ne ∙ q.members h ne;
}

pub Untouched-IsInsertFrame : (g : Text) (before : Db) → IsInsertFrame g (Untouched g before)
unfolding add_generation_route add_route_version add_route_direction add_service_direction
    add_segment
Untouched-IsInsertFrame g before = record {
  routes = add_route-Untouched g before;
  snapshots = λ row db q. q;
  versions = λ row db q. q;
  directions = λ advice row db q. q;
  services = λ row db q. q;
  segments = λ row wkt db q. q;
  members = add_member-Untouched g before;
  counts = λ rows db q. q;
}

pub Untouched-refl : (g : Text) (db : Db) → Untouched g db db
Untouched-refl g db = record {
  generations = refl;
  current = refl;
  previous = refl;
  lease = refl;
  routes = λ i r h. h;
  members = λ h ne. refl;
}
