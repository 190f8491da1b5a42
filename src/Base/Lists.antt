-- ===== src/Base/Lists.antt =====
-- Lists measured by native numbers and searched by Boolean tests, as SQL and comprehensions do.
use Prim.Native.Nat.{ℕ, zero, suc, ◌+◌, ◌-◌, ◌≤◌}
use mathlib.Core.Path.{◌≡◌, refl, ap}
use mathlib.Core.Bool.{Bool, true, false, ◌&&◌, ◌||◌}
use mathlib.Core.Option.{Option, none, some}
use mathlib.Core.List.{List, [], ◌∷◌, ◌++◌}
use mathlib.Core.Logic.{inl, inr}
use native.Mathlib.Omega.{arith}
use sombreado_service.Base.Tests.{◌==◌, if◌then◌else◌, Bool-cases}

module _ {ℓ} {A : Type ℓ} where
  abbrev pub length : List A → ℕ
  length [] = 0
  length (x ∷ xs) = suc (length xs)

  -- `[x for x in xs if p(x)]`, and `DELETE ... WHERE` with the test negated
  abbrev pub filter : (A → Bool) → List A → List A
  filter p [] = []
  filter p (x ∷ xs) = let rest = filter p xs in if p x then x ∷ rest else rest

  -- `EXISTS(SELECT ... WHERE p)`
  abbrev pub any : (A → Bool) → List A → Bool
  any p [] = false
  any p (x ∷ xs) = p x || any p xs

  abbrev pub all : (A → Bool) → List A → Bool
  all p [] = true
  all p (x ∷ xs) = p x && all p xs

  -- `fetchone()` of a `SELECT ... WHERE p`
  abbrev pub find? : (A → Bool) → List A → Option A
  find? p [] = none
  find? p (x ∷ xs) = let rest = find? p xs in if p x then some x else rest

  -- `SELECT count(*) ... WHERE p`
  abbrev pub count : (A → Bool) → List A → ℕ
  count p [] = 0
  count p (x ∷ xs) = let rest = count p xs in if p x then suc rest else rest

  -- `OFFSET n`, and the rows before it
  abbrev pub drop : ℕ → List A → List A
  drop zero xs = xs
  drop (suc n) [] = []
  drop (suc n) (x ∷ xs) = drop n xs

  -- `xs[:n]`
  abbrev pub take : ℕ → List A → List A
  take n [] = []
  take n (x ∷ xs) = let rest = take (n - 1) xs in if n == 0 then [] else x ∷ rest

  abbrev pub All {κ} : (A → Type κ) → List A → Type κ
  All P [] = Unit
  All P (x ∷ xs) = P x × All P xs

abbrev pub elem : ℕ → List ℕ → Bool
elem a [] = false
elem a (x ∷ xs) = x == a || elem a xs

-- Two texts, as lists of character codes, compared.
abbrev pub same_codes : List ℕ → List ℕ → Bool
same_codes [] [] = true
same_codes [] (_ ∷ _) = false
same_codes (_ ∷ _) [] = false
same_codes (a ∷ s) (b ∷ t) = a == b && same_codes s t

abbrev pub sum : List ℕ → ℕ
sum [] = 0
sum (x ∷ xs) = x + sum xs

pub elem-append : (a : ℕ) (xs ys : List ℕ) → elem a (xs ++ ys) ≡ (elem a xs || elem a ys)
elem-append a [] ys = refl
elem-append a (x ∷ xs) ys = ground (arith, elem-append a xs ys)

module _ {ℓ} {A : Type ℓ} (p : A → Bool) where
  pub count-le_length : (xs : List A) → count p xs ≤ length xs
  count-le_length [] = ground arith
  count-le_length (x ∷ xs) = ground (arith, count-le_length xs)

  pub length-filter : (xs : List A) → length (filter p xs) ≡ count p xs
  length-filter [] = refl
  length-filter (x ∷ xs) = ground (arith, length-filter xs)

  pub filter-all : (xs : List A) → ((a : A) → p a ≡ true) → filter p xs ≡ xs
  filter-all [] h = refl
  filter-all (x ∷ xs) h = rw (h x) (ap (λ ys. x ∷ ys) (filter-all xs h))

  pub All-filter : (xs : List A) → All (λ a. p a ≡ true) (filter p xs)
  All-filter [] = tt
  All-filter (x ∷ xs) = elim (Bool-cases (p x)) [
    | inl e ↦ rw e (e, All-filter xs)
    | inr e ↦ rw e (All-filter xs)
  ]

  -- Where nothing behind the first `n` counts, at most `n` count.
  pub count-drop : (n : ℕ) (xs : List A) → count p (drop n xs) ≡ 0 → count p xs ≤ n
  count-drop zero xs h = ground (arith, h)
  count-drop (suc n) [] h = ground arith
  count-drop (suc n) (x ∷ xs) h = ground (arith, count-drop n xs h)

pub drop-all {ℓ} : {A : Type ℓ} (n : ℕ) (xs : List A) → length xs ≤ n → drop n xs ≡ []
drop-all zero [] h = refl
drop-all zero (x ∷ xs) h = absurd (omega arith)
drop-all (suc n) [] h = refl
drop-all (suc n) (x ∷ xs) h = drop-all n xs (omega arith)

module _ {ℓ κ} {A : Type ℓ} (P : A → Type κ) where
  pub All-append : (xs ys : List A) → All P xs → All P ys → All P (xs ++ ys)
  All-append [] ys h k = k
  All-append (x ∷ xs) ys h k = (h.0, All-append xs ys h.1 k)

  pub All-weaken {μ} : (Q : A → Type μ) (xs : List A) → ((a : A) → P a → Q a) → All P xs → All Q xs
  All-weaken Q [] f h = tt
  All-weaken Q (x ∷ xs) f h = (f x h.0, All-weaken Q xs f h.1)
