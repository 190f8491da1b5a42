-- ===== src/Store/Validate/Complete.antt =====
-- `validate_generation` accepts exactly the complete staging generations.
use sombreado_service.Base.{
  ◌≡◌, ◌<◌, refl, arith, true, Option, none, some, ◌==◌, find?, length, filter, not, Bool, is_some,
  ◌∙◌, length-filter,
}
use mathlib.Core.Logic.{◌↔◌}
use sombreado_service.Store.Errors.{Text}
use sombreado_service.Store.Schema.{
  Db, Status, staging, validated, published, GenerationCounts, DatasetRouteVersionRecord,
  RouteVersionRecord, RouteDirectionRecord, ServiceDirectionRecord, RouteSegmentRecord,
}
use sombreado_service.Store.Tx.{ok}
use sombreado_service.Store.Delete.{status_in}
use sombreado_service.Store.Validate.{
  members_of, count_directions, count_services, count_segments, count_geoms, count_invalid_members,
  count_mismatches, segments_of_direction, counts_match, check_generation, validate_generation,
}
use sombreado_service.Store.Validate.Counts.{
  AllJoined, AllJoined-weaken, joined_rows, length-joined_rows, AllJoined-none, none-AllJoined,
  AllJoined-joined, joined-AllJoined,
}

-- What a generation that passes has.
pub record IsComplete (g : Text) (db : Db) : Type 0 where
  pub is_staged : status_in g db.generations ≡ some staging
  pub has_members : 0 < length (members_of g db)
  pub expected : GenerationCounts
  pub recorded : find? (λ c. c.generation_id == g) db.counts ≡ some expected
  pub versions : length (members_of g db) ≡ expected.route_versions
  pub directions :
      length (joined_rows (λ d. d.route_version_id) (members_of g db) db.route_directions)
      ≡ expected.route_directions
  pub services :
      length (joined_rows (λ s. s.route_version_id) (members_of g db) db.service_directions)
      ≡ expected.service_directions
  pub segments :
      length (joined_rows (λ s. s.route_version_id) (members_of g db) db.route_segments)
      ≡ expected.route_segments
  pub geoms :
      AllJoined
        (λ s. s.route_version_id)
        (λ m s. is_some s.geom ≡ true)
        (members_of g db)
        db.route_segments
  pub memberships :
      AllJoined (λ v. v.id) (λ m v. v.route_id ≡ m.route_id) (members_of g db) db.route_versions
  pub denorm :
      AllJoined
        (λ d. d.route_version_id)
        (λ m d.
          length d.advice_segments
          ≡ length (filter (λ s. s.route_direction_id == d.id) db.route_segments))
        (members_of g db)
        db.route_directions

check_generation-passes :
    (g : Text) (expected : GenerationCounts) (db d : Db)
    → check_generation g expected db ≡ ok (tt, d)
    → (d ≡ db)
      × (0 < length (members_of g db))
      × (counts_match g expected db ≡ true)
      × (count_segments g db ≡ count_geoms g db)
      × (count_invalid_members g db ≡ 0)
      × (count_mismatches g db ≡ 0)
unfolding check_generation
check_generation-passes g expected db d h = ground arith

check_generation-accepts :
    (g : Text) (expected : GenerationCounts) (db : Db)
    → 0 < length (members_of g db)
    → counts_match g expected db ≡ true
    → count_segments g db ≡ count_geoms g db
    → count_invalid_members g db ≡ 0
    → count_mismatches g db ≡ 0
    → check_generation g expected db ≡ ok (tt, db)
unfolding check_generation
check_generation-accepts g expected db a b c d e = ground arith

counts_match_complete :
    (g : Text) (db : Db) (c : IsComplete g db) → counts_match g c.expected db ≡ true
unfolding counts_match count_directions count_services count_segments
counts_match_complete g db c = ground (
  arith,
  c.directions,
  c.services,
  c.segments,
  length-joined_rows (λ (d : RouteDirectionRecord). d.route_version_id) (members_of g db)
      db.route_directions,
  length-joined_rows (λ (s : ServiceDirectionRecord). s.route_version_id) (members_of g db)
      db.service_directions,
  length-joined_rows (λ (s : RouteSegmentRecord). s.route_version_id) (members_of g db)
      db.route_segments,
)

-- The members of another route, the directions that disagree and the segments without geography, as
-- the queries count them.
invalid_of : DatasetRouteVersionRecord → RouteVersionRecord → Bool
invalid_of m v = not (v.route_id == m.route_id)

mismatch_of : Db → DatasetRouteVersionRecord → RouteDirectionRecord → Bool
mismatch_of db m d = not (length d.advice_segments == segments_of_direction d.id db)

module _ (g : Text) (db : Db) where
  memberships_iff :
      (count_invalid_members g db ≡ 0)
      ↔ AllJoined (λ v. v.id) (λ m v. v.route_id ≡ m.route_id) (members_of g db) db.route_versions
  unfolding count_invalid_members invalid_of
  memberships_iff = (
    λ h.
        AllJoined-weaken _ _ _ (λ m v e. ground (arith, e)) (members_of g db) db.route_versions
          (AllJoined-none (λ v. v.id) invalid_of (members_of g db) db.route_versions h),
    λ h.
        none-AllJoined (λ v. v.id) invalid_of (members_of g db) db.route_versions
          (AllJoined-weaken _ _ _ (λ m v e. ground (arith, e)) (members_of g db) db.route_versions
            h),
  )

  denorm_iff :
      (count_mismatches g db ≡ 0)
      ↔ AllJoined
          (λ d. d.route_version_id)
          (λ m d.
            length d.advice_segments
            ≡ length (filter (λ s. s.route_direction_id == d.id) db.route_segments))
          (members_of g db)
          db.route_directions
  unfolding count_mismatches segments_of_direction mismatch_of
  denorm_iff = (
    λ h.
        AllJoined-weaken _ _ _
          (λ m d e.
            ground (arith, e, length-filter (λ s. s.route_direction_id == d.id) db.route_segments))
          (members_of g db) db.route_directions
          (AllJoined-none (λ d. d.route_version_id) (mismatch_of db) (members_of g db)
            db.route_directions h),
    λ h.
        none-AllJoined (λ d. d.route_version_id) (mismatch_of db) (members_of g db)
          db.route_directions
          (AllJoined-weaken _ _ _
            (λ m d e.
              ground
                (arith, e, length-filter (λ s. s.route_direction_id == d.id) db.route_segments))
            (members_of g db) db.route_directions h),
  )

  geoms_iff :
      (count_segments g db ≡ count_geoms g db)
      ↔ AllJoined
          (λ s. s.route_version_id)
          (λ m s. is_some s.geom ≡ true)
          (members_of g db)
          db.route_segments
  unfolding count_segments count_geoms
  geoms_iff = (
    AllJoined-joined (λ s. s.route_version_id) (λ s. is_some s.geom) (members_of g db)
        db.route_segments,
    joined-AllJoined (λ s. s.route_version_id) (λ s. is_some s.geom) (members_of g db)
        db.route_segments,
  )

complete_of_check :
    (g : Text) (expected : GenerationCounts) (db : Db)
    → status_in g db.generations ≡ some staging
    → find? (λ c. c.generation_id == g) db.counts ≡ some expected
    → 0 < length (members_of g db)
    → counts_match g expected db ≡ true
    → count_segments g db ≡ count_geoms g db
    → count_invalid_members g db ≡ 0
    → count_mismatches g db ≡ 0
    → IsComplete g db
unfolding counts_match count_directions count_services count_segments
complete_of_check g expected db e₁ e₂ members counts geoms invalid mismatch = record {
  is_staged = e₁;
  has_members = members;
  expected = expected;
  recorded = e₂;
  versions = ground arith;
  directions =
      length-joined_rows (λ (d : RouteDirectionRecord). d.route_version_id) (members_of g db)
        db.route_directions
      ∙ ground arith;
  services =
      length-joined_rows (λ (s : ServiceDirectionRecord). s.route_version_id) (members_of g db)
        db.service_directions
      ∙ ground arith;
  segments =
      length-joined_rows (λ (s : RouteSegmentRecord). s.route_version_id) (members_of g db)
        db.route_segments
      ∙ ground arith;
  geoms = (geoms_iff g db).0 geoms;
  memberships = (memberships_iff g db).0 invalid;
  denorm = (denorm_iff g db).0 mismatch;
}

pub validate_generation-passes :
    (g : Text) (db d : Db) → validate_generation g db ≡ ok (tt, d) → (d ≡ db) × IsComplete g db
unfolding validate_generation
validate_generation-passes g db d =
    go (status_in g db.generations) (find? (λ c. c.generation_id == g) db.counts) refl refl
  where
    go :
        (s : Option Status) (c : Option GenerationCounts)
        → status_in g db.generations ≡ s
        → find? (λ c. c.generation_id == g) db.counts ≡ c
        → validate_generation g db ≡ ok (tt, d)
        → (d ≡ db) × IsComplete g db
    go none c e₁ e₂ h = absurd (ground arith)
    go (some published) c e₁ e₂ h = absurd (cc (rw e₁ at h))
    go (some validated) c e₁ e₂ h = absurd (cc (rw e₁ at h))
    go (some staging) none e₁ e₂ h = absurd (cc (rw (e₁, e₂) at h))
    go (some staging) (some expected) e₁ e₂ h =
        let p = check_generation-passes g expected db d (rw (e₁, e₂) at h) in
        (p.0, complete_of_check g expected db e₁ e₂ p.1 p.2 p.3 p.4 p.5)

-- `validate_generation` returns, and changes nothing, exactly on a staging generation that is
-- complete: it has members, the rows of its members' versions are as many as the recorded counts, every
-- segment of them has its geography, each member's version belongs to its route, and every direction of
-- them has as many denormalised segments as rows.
pub validate_generation_iff :
    (g : Text) (db : Db) → (validate_generation g db ≡ ok (tt, db)) ↔ IsComplete g db
unfolding validate_generation
validate_generation_iff g db = (
  λ h. (validate_generation-passes g db db h).1,
  λ c.
      rw (c.is_staged, c.recorded)
        (check_generation-accepts g c.expected db c.has_members (counts_match_complete g db c)
          ((geoms_iff g db).1 c.geoms) ((memberships_iff g db).1 c.memberships)
          ((denorm_iff g db).1 c.denorm)),
)
