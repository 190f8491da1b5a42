-- ===== src/Base/Order.antt =====
-- Python's `sorted` and SQL's ORDER BY, as a stable insertion sort by a Boolean comparison.
use Prim.Native.Nat.{suc}
use mathlib.Core.Path.{◌≡◌, refl, ap, ◌∙◌}
use mathlib.Core.Bool.{Bool, true, false}
use mathlib.Core.Logic.{inl, inr}
use mathlib.Core.List.{List, [], ◌∷◌}
use native.Mathlib.Omega.{arith}
use sombreado_service.Base.Tests.{if◌then◌else◌, Bool-cases}
use sombreado_service.Base.Lists.{count, length, All}

module _ {ℓ} {A : Type ℓ} (le : A → A → Bool) where
  -- An equal item goes behind the new one, which stood before it.
  unfoldable pub insert : A → List A → List A
  insert x [] = x ∷ []
  insert x (y ∷ ys) = let rest = insert x ys in if le x y then x ∷ y ∷ ys else y ∷ rest

  unfoldable pub sorted : List A → List A
  unfolding insert
  sorted [] = []
  sorted (x ∷ xs) = insert x (sorted xs)

  count-insert : (p : A → Bool) (y : A) (ys : List A) → count p (insert y ys) ≡ count p (y ∷ ys)
  unfolding insert
  count-insert p y [] = refl
  count-insert p y (z ∷ zs) = ground (arith, count-insert p y zs)

  pub count-sorted : (p : A → Bool) (xs : List A) → count p (sorted xs) ≡ count p xs
  unfolding sorted
  count-sorted p [] = refl
  count-sorted p (x ∷ xs) = ground (arith, count-insert p x (sorted xs), count-sorted p xs)

  length-insert : (y : A) (ys : List A) → length (insert y ys) ≡ suc (length ys)
  unfolding insert
  length-insert y [] = refl
  length-insert y (z ∷ zs) = ground (arith, length-insert y zs)

  pub length-sorted : (xs : List A) → length (sorted xs) ≡ length xs
  unfolding sorted
  length-sorted [] = refl
  length-sorted (x ∷ xs) = length-insert x (sorted xs) ∙ ap suc (length-sorted xs)

  -- Each item comes before all behind it.
  abbrev pub IsOrdered : List A → Type 0
  IsOrdered [] = Unit
  IsOrdered (x ∷ xs) = All (λ y. le x y ≡ true) xs × IsOrdered xs

  module _ (total : (a b : A) → le a b ≡ false → le b a ≡ true)
      (transitive : (a b c : A) → le a b ≡ true → le b c ≡ true → le a c ≡ true) where
    All-before :
        (x y : A) (ys : List A)
        → le x y ≡ true
        → All (λ z. le y z ≡ true) ys
        → All (λ z. le x z ≡ true) ys
    All-before x y [] e h = tt
    All-before x y (z ∷ zs) e h = (transitive x y z e h.0, All-before x y zs e h.1)

    All-insert :
        (y x : A) (ys : List A)
        → le y x ≡ true
        → All (λ z. le y z ≡ true) ys
        → All (λ z. le y z ≡ true) (insert x ys)
    unfolding insert
    All-insert y x [] e h = (e, tt)
    All-insert y x (z ∷ zs) e h = elim (Bool-cases (le x z)) [
      | inl p ↦ rw p (e, h)
      | inr p ↦ rw p (h.0, All-insert y x zs e h.1)
    ]

    insert-IsOrdered : (x : A) (ys : List A) → IsOrdered ys → IsOrdered (insert x ys)
    unfolding insert
    insert-IsOrdered x [] h = (tt, tt)
    insert-IsOrdered x (y ∷ ys) h = elim (Bool-cases (le x y)) [
      | inl p ↦ rw p ((p, All-before x y ys p h.0), h)
      | inr p ↦ rw p (All-insert y x ys (total x y p) h.0, insert-IsOrdered x ys h.1)
    ]

    pub sorted-IsOrdered : (xs : List A) → IsOrdered (sorted xs)
    unfolding sorted
    sorted-IsOrdered [] = tt
    sorted-IsOrdered (x ∷ xs) = insert-IsOrdered x (sorted xs) (sorted-IsOrdered xs)
