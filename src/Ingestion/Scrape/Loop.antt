-- ===== src/Ingestion/Scrape/Loop.antt =====
-- One turn of the scrape's loop, and the loop: what is current when it ends.
use sombreado_service.Base.{
  ℕ, ◌≡◌, refl, sym, ◌∙◌, inl, inr, Bool, true, false, ◌&&◌, ◌||◌, Option, none, some, List, [],
  ◌∷◌, ◌==◌, arith, ==-true,
}
use mathlib.Core.Path.{subst}
use sombreado_service.Store.Errors.{Text, StoreError, Message, store_raised}
use sombreado_service.Store.Schema.{Codes, Db, Status, RunOutcome}
use sombreado_service.Store.Tx.{Result, ok, err}
use sombreado_service.Store.Delete.{status_in}
use sombreado_service.Store.Lifecycle.{
  stage, validate, publish, discard_staging, has_generation, set_validated, add_generation,
}
use sombreado_service.Store.Lifecycle.Invariant.{IsValid}
use sombreado_service.Store.Lifecycle.Publish.{Published, Outcome, publish-Published}
use sombreado_service.Store.Lifecycle.Stage.{Staged, stage-Staged}
use sombreado_service.Store.Lifecycle.Discard.{
  Discarded, ValidateOutcome, validate-ValidateOutcome, discard_staging-Discarded,
}
use sombreado_service.Store.Lifecycle.Serves.{
  Staged-Serves, Discarded-Serves, Validated-Serves, Published-Serves,
}
use sombreado_service.Ingestion.Scrape.{
  ScrapeCollection, Collect, returns, raises_retryable, raises_other, Attempt, Ending, returned,
  raised, aborted, and_then, stage_validate_publish, after_discard, clean_up, attempts, Turn,
  continues, ends, turn, turn_of, after_publish, after_clean_up,
}

-- The pointers are as they were.
pub record PointersKept (before db : Db) : Type 0 where
  pub valid : IsValid db
  pub current : db.current ≡ before.current
  pub previous : db.previous ≡ before.previous

-- Generation `g` took the place of the current one.
pub record PublishedAs (g : Text) (before db : Db) : Type 0 where
  pub valid : IsValid db
  pub current : db.current ≡ some g
  pub previous : db.previous ≡ before.current

pub PointersKept-refl : (db : Db) → IsValid db → PointersKept db db
PointersKept-refl db valid = record { valid = valid; current = refl; previous = refl }

pub PointersKept-trans : (a b c : Db) → PointersKept a b → PointersKept b c → PointersKept a c
PointersKept-trans a b c p q = record {
  valid = q.valid;
  current = q.current ∙ p.current;
  previous = q.previous ∙ p.previous;
}

pub PointersKept-same : (a b c : Db) → PointersKept a b → c ≡ b → PointersKept a c
PointersKept-same a b c p e = subst (PointersKept a) (sym e) p

module _ (a : Attempt) (before : Db) where
  Tried : Result (Unit {0}) × Db → Type 0
  Tried (ok u, d) = PublishedAs a.generation_id before d
  Tried (err e, d) = PointersKept before d

  publish-Tried :
      (db : Db)
      → PointersKept before db
      → status_in a.generation_id db.generations ≡ some Status.validated
      → (r : Result (Unit {0}) × Db) → Outcome (Published a.generation_id db) db r
      → Tried r
  unfolding Tried
  publish-Tried db kept e (ok u, d) h = record {
    valid = (Published-Serves a.generation_id db d kept.valid e h).valid;
    current = h.current;
    previous = h.previous ∙ kept.current;
  }
  publish-Tried db kept e (err x, d) h = PointersKept-same before db d kept h

  Discarded-PointersKept : (b d : Db) → IsValid b → Discarded a.generation_id b d → PointersKept b d
  Discarded-PointersKept b d valid h = record {
    valid = (Discarded-Serves a.generation_id b d valid h).valid;
    current = h.deleted.current;
    previous = h.deleted.previous;
  }

  validate-Tried :
      (db : Db)
      → PointersKept before db
      → (r : Result (Unit {0}) × Db) → ValidateOutcome a.generation_id a.validated_at db r
      → Tried (and_then r (publish a.generation_id))
  unfolding Tried set_validated
  validate-Tried db kept (ok u, d) h =
      publish-Tried d
        (PointersKept-trans before db d kept (record {
          valid = valid;
          current = λ i. (h.marked i).current;
          previous = λ i. (h.marked i).previous;
        }))
        (h.status a.generation_id ∙ rw (==-true a.generation_id a.generation_id refl) refl)
        (publish a.generation_id d)
        (publish-Published a.generation_id d valid
          (h.status a.generation_id ∙ rw (==-true a.generation_id a.generation_id refl) refl))
    where
      valid : IsValid d
      valid = (Validated-Serves a.generation_id db d kept.valid a.validated_at h).valid
  validate-Tried db kept (err e, d) (inl h) = PointersKept-same before db d kept h.0
  validate-Tried db kept (err e, d) (inr h) =
      PointersKept-trans before db d kept (Discarded-PointersKept db d kept.valid h)

  stage-Tried :
      (db : Db)
      → PointersKept before db
      → (r : Result (Unit {0}) × Db) → Outcome (Staged a.generation_id a.created_at db) db r
      → Tried (
          and_then (and_then r (validate a.generation_id a.validated_at)) (publish a.generation_id))
  unfolding Tried add_generation
  stage-Tried db kept (ok u, d) h =
      validate-Tried d
        (PointersKept-trans before db d kept (record {
          valid = valid;
          current = h.untouched.current;
          previous = h.untouched.previous;
        }))
        (validate a.generation_id a.validated_at d)
        (validate-ValidateOutcome a.generation_id a.validated_at d valid.constraints)
    where
      valid : IsValid d
      valid = (Staged-Serves a.generation_id db d kept.valid a.created_at h).valid
  stage-Tried db kept (err e, d) h = PointersKept-same before db d kept h

  stage_validate_publish-Tried :
      (float : Codes → Option ℕ) (c : ScrapeCollection) (db : Db)
      → PointersKept before db
      → Tried (stage_validate_publish float a c db)
  unfolding stage_validate_publish
  stage_validate_publish-Tried float c db kept =
      stage-Tried db kept (stage float a.generation_id a.created_at c.rows db)
        (stage-Staged float a.generation_id a.created_at c.rows db)

  clean_up-PointersKept :
      (e : StoreError) (db : Db)
      → PointersKept before db
      → PointersKept before (clean_up a.generation_id e db).1
  unfolding clean_up
  clean_up-PointersKept e db kept = by_presence (has_generation a.generation_id db)
    where
      go :
          (r : Result (Unit {0}) × Db)
          → Outcome (Discarded a.generation_id db) db r
          → PointersKept before (after_discard e r).1
      go (ok u, d) h =
          PointersKept-trans before db d kept (Discarded-PointersKept db d kept.valid h)
      go (err x, d) h = PointersKept-same before db d kept h

      by_presence :
          (b : Bool)
          → PointersKept before
              (elim b as (λ _. Result Message × Db) [
                | true ↦ after_discard e (discard_staging a.generation_id db)
                | false ↦ (ok (store_raised e), db)
              ]).1
      by_presence true =
          go (discard_staging a.generation_id db)
            (discard_staging-Discarded a.generation_id db kept.valid.constraints)
      by_presence false = kept

-- An attempt under this id collected rows and reported no hard failure.
abbrev pub is_clean : Collect → Bool
is_clean (returns c) = elim c.hard_failures [ [] ↦ true | _ ∷ _ ↦ false ]
is_clean (raises_retryable t) = false
is_clean (raises_other t) = false

abbrev pub is_accepted : Text → List Attempt → Bool
is_accepted g [] = false
is_accepted g (a ∷ rest) = a.generation_id == g && is_clean a.collect || is_accepted g rest

-- What an outcome with this status and generation id says: a published generation was collected
-- without hard failures and is current; any other outcome leaves the pointers.
abbrev pub Says : RunOutcome → Option Text → List Attempt → Db → Db → Type 0
Says RunOutcome.published (some g) tries before db =
    (is_accepted g tries ≡ true) × PublishedAs g before db
Says RunOutcome.published none tries before db = ⊥
Says RunOutcome.failed o tries before db = PointersKept before db
Says RunOutcome.lease_held o tries before db = PointersKept before db

-- The end of the loop.
abbrev pub EndsLoop : List Attempt → Db → Ending × Db → Type 0
EndsLoop tries before (returned o, d) = Says o.status o.generation_id tries before d
EndsLoop tries before (raised e, d) = PointersKept before d
EndsLoop tries before (aborted t, d) = PointersKept before d

EndsTurn : Attempt → Db → Turn × Db → Type 0
EndsTurn a before (continues m r w, d) = PointersKept before d
EndsTurn a before (ends e, d) = EndsLoop (a ∷ []) before (e, d)

module _ (float : Codes → Option ℕ) (before : Db) where
  after_clean_up-EndsTurn :
      (a : Attempt) (c : ScrapeCollection) (r : Result Message × Db)
      → PointersKept before r.1
      → EndsTurn a before (after_clean_up c r)
  unfolding EndsTurn
  after_clean_up-EndsTurn a c (ok m, d) h = h
  after_clean_up-EndsTurn a c (err e, d) h = h

  after_publish-EndsTurn :
      (a : Attempt) (c : ScrapeCollection) (r : Result (Unit {0}) × Db)
      → is_clean (returns c) ≡ true
      → a.collect ≡ returns c
      → Tried a before r
      → EndsTurn a before (after_publish a c r)
  unfolding EndsTurn Tried
  after_publish-EndsTurn a c (ok u, d) clean e h =
      (rw e (rw clean (rw (==-true a.generation_id a.generation_id refl) refl)), h)
  after_publish-EndsTurn a c (err x, d) clean e h =
      after_clean_up-EndsTurn a c (clean_up a.generation_id x d)
        (clean_up-PointersKept a before x d h)

  turn-EndsTurn :
      (a : Attempt) (collect : Collect) (route_count warning_count : ℕ) (db : Db)
      → a.collect ≡ collect
      → PointersKept before db
      → EndsTurn a before (turn float a collect route_count warning_count db)
  unfolding EndsTurn turn
  turn-EndsTurn a (raises_retryable t) r w db e h = h
  turn-EndsTurn a (raises_other t) r w db e h = h
  turn-EndsTurn a (returns c) r w db e h = by_failures c.hard_failures refl
    where
      by_failures :
          (fs : List Text) → c.hard_failures ≡ fs → EndsTurn a before (turn_of float a c fs db)
      by_failures (f ∷ fs) p = h
      by_failures [] p =
          after_publish-EndsTurn a c (stage_validate_publish float a c db) (rw p refl) e
            (stage_validate_publish-Tried a before float c db h)

  -- An end of one turn is an end of the loop.
  EndsLoop-first :
      (a : Attempt) (rest : List Attempt) (e : Ending) (d : Db)
      → EndsLoop (a ∷ []) before (e, d)
      → EndsLoop (a ∷ rest) before (e, d)
  EndsLoop-first a rest (raised e) d h = h
  EndsLoop-first a rest (aborted t) d h = h
  EndsLoop-first a rest (returned o) d h = go o.status o.generation_id h
    where
      go :
          (s : RunOutcome) (g : Option Text)
          → Says s g (a ∷ []) before d
          → Says s g (a ∷ rest) before d
      go RunOutcome.published (some g) q = (ground (arith, q.0), q.1)
      go RunOutcome.published none q = q
      go RunOutcome.failed g q = q
      go RunOutcome.lease_held g q = q

  EndsLoop-rest :
      (a : Attempt) (rest : List Attempt) (r : Ending × Db)
      → EndsLoop rest before r
      → EndsLoop (a ∷ rest) before r
  EndsLoop-rest a rest (raised e, d) h = h
  EndsLoop-rest a rest (aborted t, d) h = h
  EndsLoop-rest a rest (returned o, d) h = go o.status o.generation_id h
    where
      go :
          (s : RunOutcome) (g : Option Text) → Says s g rest before d → Says s g (a ∷ rest) before d
      go RunOutcome.published (some g) q = (ground (arith, q.0), q.1)
      go RunOutcome.published none q = q
      go RunOutcome.failed g q = q
      go RunOutcome.lease_held g q = q

  pub attempts-EndsLoop :
      (tries : List Attempt) (m : Message) (r w : ℕ) (db : Db)
      → PointersKept before db
      → EndsLoop tries before (attempts float tries m r w db)
  unfolding attempts EndsTurn
  attempts-EndsLoop [] m r w db h = h
  attempts-EndsLoop (a ∷ rest) m r w db h =
      go (λ m' r' w' d q. attempts-EndsLoop rest m' r' w' d q) (turn float a a.collect r w db)
        (turn-EndsTurn a a.collect r w db refl h)
    where
      go :
          ((m' : Message) (r' w' : ℕ) (d : Db)
            → PointersKept before d
            → EndsLoop rest before (attempts float rest m' r' w' d))
          → (t : Turn × Db) → EndsTurn a before t
          → EndsLoop (a ∷ rest) before (elim t.0 [
            | continues m' r' w' ↦ attempts float rest m' r' w' t.1
            | ends e ↦ (e, t.1)
          ])
      go k (continues m' r' w', d) q =
          EndsLoop-rest a rest (attempts float rest m' r' w' d) (k m' r' w' d q)
      go k (ends e, d) q = EndsLoop-first a rest e d q
