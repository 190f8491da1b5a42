-- ===== src/Advice/Exposure/Shares.antt =====
-- The percentages of a horizon.
use sombreado_service.Base.{
  ℕ, zero, suc, ◌+◌, ◌-◌, ◌*◌, ◌/◌, ◌%◌, ◌≤◌, ◌<◌, ◌≡◌, ◌∙◌, inl, inr, refl, ap, true, false, List,
  [], ◌∷◌, ◌==◌, leb, ltb, elem, arith, Bool-cases,
}
use native.Mathlib.Nat.{div-add-mod', mod-lt, add-mul, mul-le-mul_right}
use sombreado_service.Base.Order.{sorted, insert}
use sombreado_service.Advice.{HorizonExposureShares}
use sombreado_service.Advice.Exposure.{
  ranks_before, take_indices, topped_up, percents, integer_percent_shares,
}

-- The points that the percentages lack, and where they go.
abbrev chosen_of : ℕ → ℕ → ℕ → ℕ → List ℕ
chosen_of r m0 m1 m2 = take_indices r (sorted ranks_before ((m0, 0) ∷ (m1, 1) ∷ (m2, 2) ∷ []))

-- Whatever the order, as many of the three are topped up as points are missing, and none without a
-- remainder.
record TopsUp (r m0 m1 m2 : ℕ) : Type 0 where
  sums :
      (f0 f1 f2 : ℕ)
      → topped_up (chosen_of r m0 m1 m2) 0 f0
          + topped_up (chosen_of r m0 m1 m2) 1 f1
          + topped_up (chosen_of r m0 m1 m2) 2 f2
        ≡ f0 + f1 + f2 + r
  first : m0 ≡ 0 → elem 0 (chosen_of r m0 m1 m2) ≡ false
  second : m1 ≡ 0 → elem 1 (chosen_of r m0 m1 m2) ≡ false

module _ (t m0 m1 m2 : ℕ) (l0 : m0 < t) (l1 : m1 < t) (l2 : m2 < t) where
  topped_up-0 : m0 + m1 + m2 ≡ 0 → TopsUp 0 m0 m1 m2
  topped_up-0 e = record { sums = λ f0 f1 f2. omega arith; first = λ z. refl; second = λ z. refl }

  topped_up-1 : m0 + m1 + m2 ≡ t → TopsUp 1 m0 m1 m2
  unfolding sorted insert
  topped_up-1 e = record {
    sums = λ f0 f1 f2. ground arith;
    first = λ z. ground arith;
    second = λ z. ground arith;
  }

  topped_up-2 : m0 + m1 + m2 ≡ t + t → TopsUp 2 m0 m1 m2
  unfolding sorted insert
  topped_up-2 e = record {
    sums = λ f0 f1 f2. ground arith;
    first = λ z. absurd (omega arith);
    second = λ z. absurd (omega arith);
  }

-- How many points are missing: none, one or two.
module _ (t f m : ℕ) (positive : 0 < t) (e : f * t + m ≡ 100 * t) (small : m < 3 * t) where
  not_over : f ≤ 100
  not_over = elim (Bool-cases (leb f 100)) [
    | inl p ↦ ground (arith, p)
    | inr p ↦ absurd (omega (arith, mul-le-mul_right t (over p)))
  ]
    where
      over : leb f 100 ≡ false → 101 ≤ f
      over p = ground (arith, p)

  missing : (r : ℕ) → r ≡ 100 - f → m ≡ r * t
  missing r p = omega (arith, add-mul f r t, total)
    where
      total : (f + r) * t ≡ 100 * t
      total = ap (λ x. x * t) (omega (arith, not_over))

  few : 100 - f < 3
  few = elim (Bool-cases (ltb (100 - f) 3)) [
    | inl p ↦ ground (arith, p)
    | inr p ↦ absurd (omega (arith, missing (100 - f) refl, mul-le-mul_right t (many p)))
  ]
    where
      many : ltb (100 - f) 3 ≡ false → 3 ≤ 100 - f
      many q = ground (arith, q)

module _ (t m0 m1 m2 f : ℕ) (l0 : m0 < t) (l1 : m1 < t) (l2 : m2 < t)
    (e : f * t + (m0 + m1 + m2) ≡ 100 * t) where
  topped_up_lem : (r : ℕ) → r ≡ 100 - f → TopsUp r m0 m1 m2
  topped_up_lem r p = go r (missing t f (m0 + m1 + m2) (omega arith) e (omega arith) r p) bound
    where
      bound : r < 3
      bound = omega (arith, few t f (m0 + m1 + m2) (omega arith) e (omega arith))

      go : (k : ℕ) → m0 + m1 + m2 ≡ k * t → k < 3 → TopsUp k m0 m1 m2
      go zero q b = topped_up-0 t m0 m1 m2 l0 l1 l2 (omega arith)
      go (suc zero) q b = topped_up-1 t m0 m1 m2 l0 l1 l2 (omega arith)
      go (suc (suc zero)) q b = topped_up-2 t m0 m1 m2 l0 l1 l2 (omega arith)
      go (suc (suc (suc k))) q b = absurd (omega arith)

zero_parts : (n t : ℕ) → 0 < t → n ≡ 0 → (n / t ≡ 0) × (n % t ≡ 0)
zero_parts n t positive e = (
  elim (Bool-cases (leb 1 (n / t))) [
    | inl p ↦ absurd (omega (arith, div-add-mod' n t, mul-le-mul_right t (at_least p)))
    | inr p ↦ ground (arith, p)
  ],
  omega (arith, div-add-mod' n t),
)
  where
    at_least : leb 1 (n / t) ≡ true → 1 ≤ n / t
    at_least p = ground (arith, p)

percent_zero :
    (chosen : List ℕ) (i f : ℕ) → f ≡ 0 → elem i chosen ≡ false → topped_up chosen i f ≡ 0
percent_zero chosen i f e h = rw h e

-- The percentages sum to 100, and a side without distance has none.
pub record IsDivided (left right : ℕ) (s : HorizonExposureShares) : Type 0 where
  pub sums : s.left + s.right + s.shade ≡ 100
  pub left_zero : left ≡ 0 → s.left ≡ 0
  pub right_zero : right ≡ 0 → s.right ≡ 0

percents-IsDivided :
    (left right shade : ℕ)
    → 0 < left + right + shade
    → IsDivided left right (percents (left + right + shade) left right shade)
unfolding percents
percents-IsDivided left right shade positive = record {
  sums =
      lem.sums f0 f1 f2
      ∙ omega (
        arith,
        not_over t (f0 + f1 + f2) (m0 + m1 + m2) positive whole (omega (arith, l0, l1, l2)),
      );
  left_zero = λ z.
      percent_zero chosen 0 f0 (zero_parts (left * 100) t positive (omega (arith, z))).0
        (lem.first (zero_parts (left * 100) t positive (omega (arith, z))).1);
  right_zero = λ z.
      percent_zero chosen 1 f1 (zero_parts (right * 100) t positive (omega (arith, z))).0
        (lem.second (zero_parts (right * 100) t positive (omega (arith, z))).1);
}
  where
    t : ℕ
    t = left + right + shade

    f0 : ℕ
    f0 = left * 100 / t

    f1 : ℕ
    f1 = right * 100 / t

    f2 : ℕ
    f2 = shade * 100 / t

    m0 : ℕ
    m0 = left * 100 % t

    m1 : ℕ
    m1 = right * 100 % t

    m2 : ℕ
    m2 = shade * 100 % t

    chosen : List ℕ
    chosen = chosen_of (100 - (f0 + f1 + f2)) m0 m1 m2

    l0 : m0 < t
    l0 = mod-lt (left * 100) positive

    l1 : m1 < t
    l1 = mod-lt (right * 100) positive

    l2 : m2 < t
    l2 = mod-lt (shade * 100) positive

    whole : (f0 + f1 + f2) * t + (m0 + m1 + m2) ≡ 100 * t
    whole = omega (
      arith,
      add-mul (f0 + f1) f2 t,
      add-mul f0 f1 t,
      div-add-mod' (left * 100) t,
      div-add-mod' (right * 100) t,
      div-add-mod' (shade * 100) t,
    )

    lem : TopsUp (100 - (f0 + f1 + f2)) m0 m1 m2
    lem = topped_up_lem t m0 m1 m2 (f0 + f1 + f2) l0 l1 l2 whole (100 - (f0 + f1 + f2)) refl

-- The shares that passengers see sum to 100, and a side on which the sun never shines has none.
pub integer_percent_shares-IsDivided :
    (left right shade : ℕ) → IsDivided left right (integer_percent_shares left right shade)
unfolding integer_percent_shares
integer_percent_shares-IsDivided left right shade = elim (Bool-cases (left + right + shade == 0)) [
  | inl p ↦ rw p (record { sums = refl; left_zero = λ z. refl; right_zero = λ z. refl })
  | inr p ↦ rw p (percents-IsDivided left right shade (ground (arith, p)))
]
