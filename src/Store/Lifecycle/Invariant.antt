-- ===== src/Store/Lifecycle/Invariant.antt =====
-- The invariant of the lifecycle: the published generations are exactly those that a pointer shows
-- to passengers.
use sombreado_service.Base.{
  and_left, ◌≡◌, refl, ap, Bool, true, false, not, ◌&&◌, ◌||◌, List, [], ◌∷◌, Option, none, some,
  ◌==◌, any, filter, arith, elem,
}
use mathlib.Core.Path.{subst}
use native.Mathlib.Decide.{ℕ_discrete}
use sombreado_service.Store.Errors.{Text}
use sombreado_service.Store.Schema.{
  Db, Status, published, DatasetGenerationRecord, satisfies_constraints, unique,
}
use sombreado_service.Store.Delete.{is_at, status_in, unpublished, orphans}

-- No two rows have one id.
abbrev pub Distinct : List DatasetGenerationRecord → Type 0
Distinct [] = Unit
Distinct (r ∷ rs) = (status_in r.id rs ≡ none) × Distinct rs

pub record IsValid (db : Db) : Type 0 where
  pub constraints : satisfies_constraints db ≡ true
  pub current_published :
      (h : Text) → is_at h db.current ≡ true → status_in h db.generations ≡ some published
  pub previous_published :
      (h : Text) → is_at h db.previous ≡ true → status_in h db.generations ≡ some published
  pub published_pointed :
      (h : Text)
      → status_in h db.generations ≡ some published
      → (is_at h db.current || is_at h db.previous) ≡ true
  pub pointers_differ : (h : Text) → is_at h db.current ≡ true → is_at h db.previous ≡ false

none_of_any :
    (i : Text) (rs : List DatasetGenerationRecord)
    → any (λ r. i == r.id) rs ≡ false
    → status_in i rs ≡ none
none_of_any i [] h = refl
none_of_any i (r ∷ rs) h = ground (arith, none_of_any i rs)

Distinct-unique :
    (rs : List DatasetGenerationRecord) → unique (λ a b. a.id == b.id) rs ≡ true → Distinct rs
unfolding unique
Distinct-unique [] h = tt
Distinct-unique (r ∷ rs) h = ground (arith, none_of_any r.id rs, Distinct-unique rs)

pub Distinct-satisfies_constraints :
    (db : Db) → satisfies_constraints db ≡ true → Distinct db.generations
unfolding satisfies_constraints
Distinct-satisfies_constraints db h = Distinct-unique db.generations (and_left _ _ h)

status_in-none-filter :
    (i g : Text) (rs : List DatasetGenerationRecord)
    → status_in i rs ≡ none
    → status_in i (filter (λ r. not (r.id == g)) rs) ≡ none
status_in-none-filter i g [] h = h
status_in-none-filter i g (r ∷ rs) h = ground (arith, status_in-none-filter i g rs)

pub Distinct-delete :
    (g : Text) (rs : List DatasetGenerationRecord)
    → Distinct rs
    → Distinct (filter (λ r. not (r.id == g)) rs)
Distinct-delete g [] h = tt
Distinct-delete g (r ∷ rs) h = ground (arith, status_in-none-filter r.id g rs, Distinct-delete g rs)

abbrev pub is_unpublished : Option Status → Bool
is_unpublished none = false
is_unpublished (some s) = unpublished s

elem-orphans-none :
    (h : Text) (protected : Text → Bool) (rs : List DatasetGenerationRecord)
    → status_in h rs ≡ none
    → elem h (orphans protected rs) ≡ false
unfolding orphans
elem-orphans-none h protected [] e = refl
elem-orphans-none h protected (r ∷ rs) e = ground (arith, elem-orphans-none h protected rs)

-- Which generations are orphans: those staging or validated that are not protected.
pub elem-orphans :
    (h : Text) (protected : Text → Bool) (rs : List DatasetGenerationRecord)
    → Distinct rs
    → elem h (orphans protected rs) ≡ (is_unpublished (status_in h rs) && not (protected h))
unfolding orphans
elem-orphans h protected [] d = refl
elem-orphans h protected (r ∷ rs) d = elim (ℕ_discrete r.id h) [
  | yes p ↦ ground (
    arith,
    ap protected p,
    elem-orphans-none h protected rs (subst (λ i. status_in i rs ≡ none) p d.0),
  )
  | no ne ↦ ground (arith, elem-orphans h protected rs)
]
