-- ===== src/Store/Validate/Counts.antt =====
-- The counts of `validate_generation`, read as statements about each row.
use sombreado_service.Base.{
  ℕ, ◌+◌, ◌≤◌, ◌≡◌, refl, arith, Bool, true, false, ◌&&◌, List, [], ◌∷◌, ◌++◌, map, ◌==◌, count,
  filter, length, sum, All, All-weaken, length-filter, ==-true, eq_of-==, Bool-cases, inl, inr,
}
use sombreado_service.Store.Errors.{Text}
use sombreado_service.Store.Schema.{DatasetRouteVersionRecord}
use sombreado_service.Store.Validate.{joined}

module _ {A : Type 0} where
  count-none : (p : A → Bool) (xs : List A) → All (λ x. p x ≡ false) xs → count p xs ≡ 0
  count-none p [] h = refl
  count-none p (x ∷ xs) h = ground (arith, h.0, count-none p xs h.1)

  none_counted : (p : A → Bool) (xs : List A) → count p xs ≡ 0 → All (λ x. p x ≡ false) xs
  none_counted p [] h = tt
  none_counted p (x ∷ xs) h = (ground arith, none_counted p xs (ground arith))

  sum-none : (f : A → ℕ) (xs : List A) → All (λ x. f x ≡ 0) xs → sum (map f xs) ≡ 0
  sum-none f [] h = refl
  sum-none f (x ∷ xs) h = omega (arith, h.0, sum-none f xs h.1)

  none_summed : (f : A → ℕ) (xs : List A) → sum (map f xs) ≡ 0 → All (λ x. f x ≡ 0) xs
  none_summed f [] h = tt
  none_summed f (x ∷ xs) h = (omega (arith, h), none_summed f xs (omega (arith, h)))

  count-filter : (p q : A → Bool) (xs : List A) → count p (filter q xs) ≤ count p xs
  count-filter p q [] = omega arith
  count-filter p q (x ∷ xs) = ground (arith, count-filter p q xs)

  all_counted :
      (p q : A → Bool) (xs : List A)
      → count p xs ≡ count p (filter q xs)
      → All (λ x. p x ≡ true → q x ≡ true) xs
  all_counted p q [] h = tt
  all_counted p q (x ∷ xs) h = (
    λ e. ground (arith, count-filter p q xs),
    all_counted p q xs (ground (arith, count-filter p q xs)),
  )

  count-filter-all :
      (p q : A → Bool) (xs : List A)
      → All (λ x. p x ≡ true → q x ≡ true) xs
      → count p xs ≡ count p (filter q xs)
  count-filter-all p q [] h = refl
  count-filter-all p q (x ∷ xs) h = ground (arith, h.0, count-filter-all p q xs h.1)

-- What is so of each row of each member's version.
module _ {A : Type 0} (version_of : A → Text) where
  abbrev pub AllJoined :
      (DatasetRouteVersionRecord → A → Type 0) → List DatasetRouteVersionRecord → List A → Type 0
  AllJoined P members rows =
      All (λ m. All (λ r. version_of r ≡ m.route_version_id → P m r) rows) members

  pub AllJoined-weaken :
      (P Q : DatasetRouteVersionRecord → A → Type 0)
      → ((m : DatasetRouteVersionRecord) (r : A) → P m r → Q m r)
      → (members : List DatasetRouteVersionRecord) (rows : List A) → AllJoined P members rows
      → AllJoined Q members rows
  AllJoined-weaken P Q f members rows h =
      All-weaken _ _ members (λ m a. All-weaken _ _ rows (λ r k e. f m r (k e)) a) h

  -- The rows of the members' versions.
  abbrev pub joined_rows : List DatasetRouteVersionRecord → List A → List A
  joined_rows [] rows = []
  joined_rows (m ∷ members) rows =
      filter (λ r. version_of r == m.route_version_id) rows ++ joined_rows members rows

  length-append : (xs ys : List A) → length (xs ++ ys) ≡ length xs + length ys
  length-append [] ys = omega arith
  length-append (x ∷ xs) ys = omega (arith, length-append xs ys)

  pub length-joined_rows :
      (members : List DatasetRouteVersionRecord) (rows : List A)
      → length (joined_rows members rows) ≡ joined version_of members rows
  unfolding joined
  length-joined_rows [] rows = refl
  length-joined_rows (m ∷ members) rows = omega (
    arith,
    length-append (filter (λ r. version_of r == m.route_version_id) rows)
        (joined_rows members rows),
    length-filter (λ r. version_of r == m.route_version_id) rows,
    length-joined_rows members rows,
  )

  module _ (bad : DatasetRouteVersionRecord → A → Bool) where
    abbrev pub bad_rows : DatasetRouteVersionRecord → List A → ℕ
    bad_rows m rows = count (λ r. version_of r == m.route_version_id && bad m r) rows

    pub AllJoined-none :
        (members : List DatasetRouteVersionRecord) (rows : List A)
        → sum (map (λ m. bad_rows m rows) members) ≡ 0
        → AllJoined (λ m r. bad m r ≡ false) members rows
    AllJoined-none members rows h =
        All-weaken _ _ members
          (λ m e.
            All-weaken _ _ rows (λ r q e'. ground (arith, q, e'))
              (none_counted (λ r. version_of r == m.route_version_id && bad m r) rows e))
          (none_summed (λ m. bad_rows m rows) members h)

    pub none-AllJoined :
        (members : List DatasetRouteVersionRecord) (rows : List A)
        → AllJoined (λ m r. bad m r ≡ false) members rows
        → sum (map (λ m. bad_rows m rows) members) ≡ 0
    none-AllJoined members rows h =
        sum-none (λ m. bad_rows m rows) members
          (All-weaken _ _ members
            (λ m a.
              count-none (λ r. version_of r == m.route_version_id && bad m r) rows
                (All-weaken _ _ rows (λ r f. passes m r f) a))
            h)
      where
        passes :
            (m : DatasetRouteVersionRecord) (r : A)
            → (version_of r ≡ m.route_version_id → bad m r ≡ false)
            → (version_of r == m.route_version_id && bad m r) ≡ false
        passes m r f = elim (Bool-cases (version_of r == m.route_version_id)) [
          | inl e ↦ rw (e, f (eq_of-== (version_of r) m.route_version_id e)) refl
          | inr e ↦ rw e refl
        ]

  module _ (q : A → Bool) where
    joined-filter :
        (members : List DatasetRouteVersionRecord) (rows : List A)
        → joined version_of members (filter q rows) ≤ joined version_of members rows
    unfolding joined
    joined-filter [] rows = omega arith
    joined-filter (m ∷ members) rows = omega (
      arith,
      joined-filter members rows,
      count-filter (λ r. version_of r == m.route_version_id) q rows,
    )

    pub AllJoined-joined :
        (members : List DatasetRouteVersionRecord) (rows : List A)
        → joined version_of members rows ≡ joined version_of members (filter q rows)
        → AllJoined (λ m r. q r ≡ true) members rows
    unfolding joined
    AllJoined-joined [] rows h = tt
    AllJoined-joined (m ∷ members) rows h =
        let le = count-filter (λ r. version_of r == m.route_version_id) q rows in
        let rest = joined-filter members rows in
        (
          All-weaken _ _ rows (λ r f e. f (==-true (version_of r) m.route_version_id e))
              (all_counted (λ r. version_of r == m.route_version_id) q rows
                (omega (arith, h, le, rest))),
          AllJoined-joined members rows (omega (arith, h, le, rest)),
        )

    pub joined-AllJoined :
        (members : List DatasetRouteVersionRecord) (rows : List A)
        → AllJoined (λ m r. q r ≡ true) members rows
        → joined version_of members rows ≡ joined version_of members (filter q rows)
    unfolding joined
    joined-AllJoined [] rows h = refl
    joined-AllJoined (m ∷ members) rows h = omega (
      arith,
      joined-AllJoined members rows h.1,
      count-filter-all (λ r. version_of r == m.route_version_id) q rows
          (All-weaken _ _ rows (λ r f e. f (eq_of-== (version_of r) m.route_version_id e)) h.0),
    )
