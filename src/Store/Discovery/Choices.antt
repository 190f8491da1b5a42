-- ===== src/Store/Discovery/Choices.antt =====
-- The order of the direction choices, and their labels.
use sombreado_service.Base.{
  ◌≡◌, ◌≤◌, refl, ap, ◌∙◌, Bool, true, ◌&&◌, ◌⊎◌, inl, inr, Option, none, some, List, [], ◌∷◌, map,
  filter, any, count, ◌==◌, arith, All, All-weaken, Bool-cases, eq_of-==, ==-true,
}
use sombreado_service.Base.Order.{sorted, IsOrdered, sorted-IsOrdered, count-sorted}
use sombreado_service.Store.Errors.{Text}
use sombreado_service.Store.Schema.{Db, RouteDirectionRecord}
use sombreado_service.Store.Discovery.{
  DirectionChoiceRow, current_members, kind_rank, choice_le, load_direction_choices,
}

count-map :
    {A B : Type 0} (f : A → B) (p : B → Bool) (xs : List A)
    → count p (map f xs) ≡ count (λ x. p (f x)) xs
count-map f p [] = refl
count-map f p (x ∷ xs) = ground (arith, count-map f p xs)

count-filter :
    {A : Type 0} (p q : A → Bool) (xs : List A) → count p (filter q xs) ≡ count (λ x. p x && q x) xs
count-filter p q [] = refl
count-filter p q (x ∷ xs) = ground (arith, count-filter p q xs)

-- One choice may stand before another: "ida" before all others, "volta" before all but "ida", and in one
-- kind the sequences do not fall.
abbrev pub MayPrecede : Text → Text → DirectionChoiceRow → DirectionChoiceRow → Type 0
MayPrecede ida volta a b =
    (b.direction_kind ≡ some ida → a.direction_kind ≡ some ida)
    × (b.direction_kind ≡ some volta
        → (a.direction_kind ≡ some ida) ⊎ (a.direction_kind ≡ some volta))
    × (a.direction_kind ≡ b.direction_kind → a.sequence ≤ b.sequence)

abbrev pub IsInOrder : Text → Text → List DirectionChoiceRow → Type 0
IsInOrder ida volta [] = Unit
IsInOrder ida volta (c ∷ cs) = All (MayPrecede ida volta c) cs × IsInOrder ida volta cs

module _ (ida volta : Text) where
  kind_rank-ida : (k : Option Text) → kind_rank ida volta k ≡ 0 → k ≡ some ida
  kind_rank-ida none e = absurd (omega (arith, e))
  kind_rank-ida (some k) e = ap some (ground (arith, e))

  kind_rank-volta :
      (k : Option Text) → kind_rank ida volta k ≤ 1 → (k ≡ some ida) ⊎ (k ≡ some volta)
  kind_rank-volta none e = absurd (omega (arith, e))
  kind_rank-volta (some k) e = elim (Bool-cases (k == ida)) [
    | inl p ↦ inl (ap some (eq_of-== k ida p))
    | inr p ↦ elim (Bool-cases (k == volta)) [
      | inl q ↦ inr (ap some (eq_of-== k volta q))
      | inr q ↦ absurd (ground (arith, e, p, q))
    ]
  ]

  rank_of_ida : (k : Option Text) → k ≡ some ida → kind_rank ida volta k ≡ 0
  rank_of_ida k e = rw e (rw (==-true ida ida refl) refl)

  rank_of_volta : (k : Option Text) → k ≡ some volta → kind_rank ida volta k ≤ 1
  rank_of_volta k e = rw e (ground arith)

  choice_le-rank :
      (a b : DirectionChoiceRow)
      → choice_le ida volta a b ≡ true
      → kind_rank ida volta a.direction_kind ≤ kind_rank ida volta b.direction_kind
  choice_le-rank a b e = ground (arith, e)

  choice_le-MayPrecede :
      (a b : DirectionChoiceRow) → choice_le ida volta a b ≡ true → MayPrecede ida volta a b
  choice_le-MayPrecede a b e = (
    λ h.
        kind_rank-ida a.direction_kind
          (omega (arith, choice_le-rank a b e, rank_of_ida b.direction_kind h)),
    λ h.
        kind_rank-volta a.direction_kind
          (omega (arith, choice_le-rank a b e, rank_of_volta b.direction_kind h)),
    λ h. ground (arith, e, ap (kind_rank ida volta) h),
  )

  IsOrdered-IsInOrder :
      (cs : List DirectionChoiceRow) → IsOrdered (choice_le ida volta) cs → IsInOrder ida volta cs
  IsOrdered-IsInOrder [] h = tt
  IsOrdered-IsInOrder (c ∷ cs) h =
      (All-weaken _ _ cs (λ d e. choice_le-MayPrecede c d e) h.0, IsOrdered-IsInOrder cs h.1)

-- The choices of "ida" stand before those of "volta", and these before the others; those of one kind stand by
-- sequence. A direction stands among them once for each of its rows in the version, and only if the version
-- is one of the current generation.
pub load_direction_choices_lem :
    (ida volta : Text) (is_public : Text → Bool) (route_version_id : Text) (db : Db)
    → IsInOrder ida volta (load_direction_choices ida volta is_public route_version_id db)
      × ((i : Text)
          → count
              (λ c. c.route_direction_id == i)
              (load_direction_choices ida volta is_public route_version_id db)
            ≡ count
                (λ d.
                  d.id == i
                  && (d.route_version_id == route_version_id
                      && any
                          (λ m. m.route_version_id == route_version_id)
                          (current_members db.current db)))
                db.route_directions)
unfolding load_direction_choices
load_direction_choices_lem ida volta is_public route_version_id db = (
  IsOrdered-IsInOrder ida volta _ (
      sorted-IsOrdered (choice_le ida volta) (λ a b e. ground (arith, e))
        (λ a b c e h. ground (arith, e, h)) _),
  λ i.
      count-sorted (choice_le ida volta) _ _
      ∙ count-map _ _ (sorted _ _)
      ∙ count-sorted _ _ _
      ∙ count-filter (λ (d : RouteDirectionRecord). d.id == i) _ db.route_directions,
)
