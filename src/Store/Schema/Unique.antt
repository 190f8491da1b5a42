-- ===== src/Store/Schema/Unique.antt =====
-- Keys that are unique stay so in a selection and in another order.
use sombreado_service.Base.{
  ℕ, Bool, true, false, ◌||◌, List, [], ◌∷◌, any, filter, ◌==◌, ◌≡◌, refl, arith,
}
use sombreado_service.Base.Order.{sorted, insert}
use sombreado_service.Store.Schema.{unique}

module _ {A : Type 0} where
  any-filter : (p q : A → Bool) (xs : List A) → any p xs ≡ false → any p (filter q xs) ≡ false
  any-filter p q [] h = h
  any-filter p q (x ∷ xs) h = ground (arith, any-filter p q xs)

  any-insert :
      (p : A → Bool) (le : A → A → Bool) (x : A) (ys : List A)
      → any p (insert le x ys) ≡ (p x || any p ys)
  unfolding insert
  any-insert p le x [] = refl
  any-insert p le x (y ∷ ys) = ground (arith, any-insert p le x ys)

module _ {A : Type 0} (key : A → ℕ) where
  abbrev pub same_key : A → A → Bool
  same_key a b = key a == key b

  pub unique-filter :
      (q : A → Bool) (xs : List A)
      → unique same_key xs ≡ true
      → unique same_key (filter q xs) ≡ true
  unfolding unique
  unique-filter q [] h = h
  unique-filter q (x ∷ xs) h = ground (arith, any-filter (same_key x) q xs, unique-filter q xs)

  unique-insert :
      (le : A → A → Bool) (x : A) (ys : List A)
      → unique same_key (x ∷ ys) ≡ true
      → unique same_key (insert le x ys) ≡ true
  unfolding unique insert
  unique-insert le x [] h = h
  unique-insert le x (y ∷ ys) h =
      ground (arith, h, any-insert (same_key y) le x ys, unique-insert le x ys)

  any-sorted : (p : A → Bool) (le : A → A → Bool) (xs : List A) → any p (sorted le xs) ≡ any p xs
  unfolding sorted
  any-sorted p le [] = refl
  any-sorted p le (x ∷ xs) = ground (arith, any-insert p le x (sorted le xs), any-sorted p le xs)

  pub unique-sorted :
      (le : A → A → Bool) (xs : List A)
      → unique same_key xs ≡ true
      → unique same_key (sorted le xs) ≡ true
  unfolding unique sorted
  unique-sorted le [] h = h
  unique-sorted le (x ∷ xs) h =
      unique-insert le x (sorted le xs)
        (ground (arith, h, any-sorted (same_key x) le xs, unique-sorted le xs))
