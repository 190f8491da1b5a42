-- ===== src/Store/Schema.antt =====
-- The tables of src/sombreado/store/models.py, with the constraints that the migrations declare
-- (migrations/versions). Texts (identifiers, names, labels) are only compared and ordered, so a text
-- is the number of its place in the database's order; a geometry is read, so it is a list of
-- characters. A float column is an opaque number here. Times are numbers of seconds.
pub mod Unique
use sombreado_service.Base.{
  ℕ, Bool, true, ◌&&◌, not, Option, none, some, List, [], ◌∷◌, map, ◌==◌, any, all, ◌≡◌, arith,
}
use sombreado_service.Store.Errors.{Text, Message}

abbrev pub Codes : Type 0
Codes = List ℕ

pub record RouteRecord : Type 0 where
  pub id : Text
  pub code : Text
  pub name : Text
  pub slug : Text
  pub category : Option Text
  pub fare_region : Option Text
  pub last_changed : Option Text
  pub is_current : ℕ

pub record RouteVersionRecord : Type 0 where
  pub id : Text
  pub route_id : Text
  pub source_hash : Text
  pub map_hash : Option Text
  pub page_url : Text
  pub map_url : Option Text
  pub is_current : ℕ

-- One item of the `advice_segments` column.
pub record AdviceSegment : Type 0 where
  pub public_id : Text
  pub sequence : ℕ
  pub coordinates : List (ℕ × ℕ)
  pub bearing_degrees : ℕ
  pub distance_meters : ℕ
  pub cumulative_distance_meters : ℕ

pub record RouteDirectionRecord : Type 0 where
  pub id : Text
  pub route_version_id : Text
  pub name : Text
  pub direction_kind : Option Text
  pub sequence : ℕ
  pub geometry : Codes
  pub advice_segments : List AdviceSegment

pub record ServiceDirectionRecord : Type 0 where
  pub id : Text
  pub route_version_id : Text
  pub route_direction_id : Option Text
  pub sequence : ℕ
  pub departure_label : Text
  pub normalized_name : Option Text
  pub direction_kind : Option Text
  pub confidence : Text
  pub method : Text
  pub notes : Text

-- `geom` holds the text that `ST_GeogFromText` was given; the column is NOT NULL, and `none` stands
-- for a row that breaks this.
pub record RouteSegmentRecord : Type 0 where
  pub public_id : Text
  pub route_version_id : Text
  pub route_direction_id : Text
  pub sequence : ℕ
  pub source_segment_sequence : ℕ
  pub source_fraction_start : ℕ
  pub source_fraction_end : ℕ
  pub geometry : Codes
  pub geom : Option Codes
  pub bearing_degrees : ℕ
  pub distance_meters : ℕ
  pub cumulative_distance_meters : ℕ

pub data Status : Type 0 where
  staging validated published : Status

pub record DatasetGenerationRecord : Type 0 where
  pub id : Text
  pub status : Status
  pub created_at : ℕ
  pub validated_at : Option ℕ

pub record DatasetRouteVersionRecord : Type 0 where
  pub generation_id : Text
  pub route_id : Text
  pub route_version_id : Text

pub record GenerationCounts : Type 0 where
  pub generation_id : Text
  pub route_versions : ℕ
  pub route_directions : ℕ
  pub service_directions : ℕ
  pub route_segments : ℕ

pub record GenerationRoute : Type 0 where
  pub generation_id : Text
  pub route_id : Text
  pub code : Text
  pub name : Text
  pub slug : Text
  pub category : Option Text
  pub fare_region : Option Text
  pub last_changed : Option Text
  pub is_current : ℕ

pub record Lease : Type 0 where
  pub holder_id : Text
  pub claimed_at : ℕ
  pub expires_at : ℕ

pub data RunOutcome : Type 0 where
  published failed lease_held : RunOutcome

pub record ScrapeRun : Type 0 where
  pub id : Text
  pub started_at : ℕ
  pub finished_at : ℕ
  pub outcome : RunOutcome
  pub generation_id : Option Text
  pub route_count : ℕ
  pub warning_count : ℕ
  pub error_summary : Option Message

-- `dataset_pointers` has one row at most for each of its two roles, and `scrape_lease` one row at
-- most, so they are optional values.
pub record Db : Type 0 where
  pub routes : List RouteRecord
  pub route_versions : List RouteVersionRecord
  pub route_directions : List RouteDirectionRecord
  pub service_directions : List ServiceDirectionRecord
  pub route_segments : List RouteSegmentRecord
  pub generations : List DatasetGenerationRecord
  pub members : List DatasetRouteVersionRecord
  pub counts : List GenerationCounts
  pub generation_routes : List GenerationRoute
  pub current : Option Text
  pub previous : Option Text
  pub lease : Option Lease
  pub scrape_runs : List ScrapeRun

abbrev pub empty : Db
empty = record {
  routes = [];
  route_versions = [];
  route_directions = [];
  service_directions = [];
  route_segments = [];
  generations = [];
  members = [];
  counts = [];
  generation_routes = [];
  current = none;
  previous = none;
  lease = none;
  scrape_runs = [];
}

-- PRIMARY KEY and UNIQUE: no two rows agree on the key.
module _ {A : Type 0} where
  unfoldable pub unique : (A → A → Bool) → List A → Bool
  unique agree [] = true
  unique agree (x ∷ xs) = not (any (agree x) xs) && unique agree xs

-- REFERENCES of a nullable column.
null_or_in : List Text → Option Text → Bool
null_or_in ids none = true
null_or_in ids (some a) = any (λ b. b == a) ids

references : List Text → List Text → Bool
references ids used = all (λ a. any (λ b. b == a) ids) used

satisfies_route_tables : Db → Bool
satisfies_route_tables db =
    unique (λ a b. a.id == b.id) db.routes
    && unique (λ a b. a.code == b.code) db.routes
    && unique (λ a b. a.id == b.id) db.route_versions
    && references (map (λ r. r.id) db.routes) (map (λ v. v.route_id) db.route_versions)
    && unique (λ a b. a.id == b.id) db.route_directions
    && unique (λ a b. a.route_version_id == b.route_version_id && a.sequence == b.sequence)
        db.route_directions
    && references (map (λ v. v.id) db.route_versions)
        (map (λ d. d.route_version_id) db.route_directions)

satisfies_child_tables : Db → Bool
satisfies_child_tables db =
    let versions = map (λ (v : RouteVersionRecord). v.id) db.route_versions in
    let directions = map (λ (d : RouteDirectionRecord). d.id) db.route_directions in
    unique (λ a b. a.id == b.id) db.service_directions
    && unique
        (λ a b. a.route_version_id == b.route_version_id && a.departure_label == b.departure_label)
        db.service_directions
    && references versions (map (λ s. s.route_version_id) db.service_directions)
    && all (λ s. null_or_in directions s.route_direction_id) db.service_directions
    && unique (λ a b. a.public_id == b.public_id) db.route_segments
    && unique
        (λ a b.
          a.route_version_id == b.route_version_id
          && a.route_direction_id == b.route_direction_id
          && a.sequence == b.sequence)
        db.route_segments
    && references versions (map (λ s. s.route_version_id) db.route_segments)
    && references directions (map (λ s. s.route_direction_id) db.route_segments)
    && all (λ s. elim s.geom [ none ↦ Bool.false | some _ ↦ true ]) db.route_segments

satisfies_dataset_tables : Db → Bool
satisfies_dataset_tables db =
    let generations = map (λ (g : DatasetGenerationRecord). g.id) db.generations in
    let routes = map (λ (r : RouteRecord). r.id) db.routes in
    references generations (map (λ m. m.generation_id) db.members)
    && references routes (map (λ m. m.route_id) db.members)
    && references (map (λ v. v.id) db.route_versions) (map (λ m. m.route_version_id) db.members)
    && unique (λ a b. a.generation_id == b.generation_id && a.route_id == b.route_id) db.members
    && unique
        (λ a b. a.generation_id == b.generation_id && a.route_version_id == b.route_version_id)
        db.members
    && unique (λ a b. a.generation_id == b.generation_id) db.counts
    && references generations (map (λ c. c.generation_id) db.counts)
    && unique (λ a b. a.generation_id == b.generation_id && a.route_id == b.route_id)
        db.generation_routes
    && references generations (map (λ r. r.generation_id) db.generation_routes)
    && references routes (map (λ r. r.route_id) db.generation_routes)
    && null_or_in generations db.current
    && null_or_in generations db.previous
    && unique (λ a b. a.id == b.id) db.scrape_runs

-- What PostgreSQL checks after a statement.
unfoldable pub satisfies_constraints : Db → Bool
unfolding satisfies_route_tables satisfies_child_tables satisfies_dataset_tables unique null_or_in
    references
satisfies_constraints db =
    unique (λ a b. a.id == b.id) db.generations
    && (satisfies_route_tables db && satisfies_child_tables db && satisfies_dataset_tables db)

-- The identifiers of the directions in a state that meets the constraints are unique.
pub satisfies_constraints-unique :
    (db : Db)
    → satisfies_constraints db ≡ true
    → unique (λ a b. a.id == b.id) db.route_directions ≡ true
unfolding satisfies_constraints satisfies_route_tables
satisfies_constraints-unique db h = ground (arith, h)

pub satisfies_constraints-members :
    (db : Db)
    → satisfies_constraints db ≡ true
    → unique
        (λ a b. a.generation_id == b.generation_id && a.route_version_id == b.route_version_id)
        db.members
      ≡ true
unfolding satisfies_constraints satisfies_dataset_tables
satisfies_constraints-members db h = ground (arith, h)
