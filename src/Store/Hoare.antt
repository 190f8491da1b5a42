-- ===== src/Store/Hoare.antt =====
-- Postconditions of transactions: what holds when one returns. A raise is rolled back, so nothing is
-- claimed of it.
use sombreado_service.Base.{◌≡◌, refl, sym, Bool, true, false, List, [], ◌∷◌, Bool-cases, inl, inr}
use mathlib.Core.Path.{subst}
use sombreado_service.Store.Schema.{Db, satisfies_constraints}
use sombreado_service.Store.Tx.{Tx, Result, ok, err, ◌>>=◌, execute, for_each, when, pure, query}

abbrev pub Post {ℓ} : {A : Type 0} → (A → Db → Type ℓ) → Result (A × Db) → Type ℓ
Post Q (ok (a, db)) = Q a db
Post Q (err e) = Unit

pub Post-bind {ℓ κ} :
    {A B : Type 0} (Q : A → Db → Type ℓ) (R : B → Db → Type κ) (m : Tx A) (f : A → Tx B) (db : Db)
    → Post Q (m db)
    → ((a : A) (d : Db) → Q a d → Post R (f a d))
    → Post R ((m >>= f) db)
Post-bind {A} Q R m f db h k = go (m db) h
  where
    go : (r : Result (A × Db)) → Post Q r → Post R (elim r [ ok (a, d) ↦ f a d | err e ↦ err e ])
    go (ok (a, d)) q = k a d q
    go (err e) q = tt

pub Post-execute {ℓ} :
    (Q : Unit {0} → Db → Type ℓ) (f : Db → Db) (db : Db)
    → (satisfies_constraints (f db) ≡ true → Q tt (f db))
    → Post Q (execute f db)
unfolding execute
Post-execute Q f db h = elim (Bool-cases (satisfies_constraints (f db))) [
  | inl e ↦ rw e (h e)
  | inr e ↦ rw e tt
]

-- A block that begins with a statement.
pub Post-step {ℓ} :
    {B : Type 0} (R : B → Db → Type ℓ) (f : Db → Db) (k : Unit {0} → Tx B) (db : Db)
    → (satisfies_constraints (f db) ≡ true → Post R (k tt (f db)))
    → Post R ((execute f >>= k) db)
Post-step R f k db h =
    Post-bind (λ _ d. (d ≡ f db) × (satisfies_constraints (f db) ≡ true)) R (execute f) k db
      (Post-execute (λ _ d. (d ≡ f db) × (satisfies_constraints (f db) ≡ true)) f db
        (λ e. (refl, e)))
      (λ a d p. subst (λ x. Post R (k tt x)) (sym p.0) (h p.1))

pub Post-weaken {ℓ κ} :
    {A : Type 0} (Q : A → Db → Type ℓ) (R : A → Db → Type κ) (r : Result (A × Db))
    → ((a : A) (d : Db) → Q a d → R a d)
    → Post Q r
    → Post R r
Post-weaken Q R (ok (a, d)) k h = k a d h
Post-weaken Q R (err e) k h = tt

pub Post-of-eq {ℓ} :
    {A : Type 0} (Q : A → Db → Type ℓ) (r : Result (A × Db))
    → ((a : A) (d : Db) → r ≡ ok (a, d) → Q a d)
    → Post Q r
Post-of-eq Q (ok (a, d)) h = h a d refl
Post-of-eq Q (err e) h = tt

pub Post-true : {A : Type 0} (r : Result (A × Db)) → Post (λ _ _. Unit {0}) r
Post-true (ok (a, d)) = tt
Post-true (err e) = tt

-- `m` keeps `P`
abbrev pub Keeps {ℓ} : {A : Type 0} → (Db → Type ℓ) → Tx A → Type ℓ
Keeps P m = (db : Db) → P db → Post (λ _ d. P d) (m db)

module _ {ℓ} (P : Db → Type ℓ) where
  pub Keeps-bind :
      {A B : Type 0} (m : Tx A) (f : A → Tx B)
      → Keeps P m
      → ((a : A) → Keeps P (f a))
      → Keeps P (m >>= f)
  Keeps-bind m f km kf db h =
      Post-bind (λ _ d. P d) (λ _ d. P d) m f db (km db h) (λ a d p. kf a d p)

  pub Keeps-execute :
      (f : Db → Db)
      → ((db : Db) → satisfies_constraints (f db) ≡ true → P db → P (f db))
      → Keeps P (execute f)
  Keeps-execute f k db h = Post-execute (λ _ d. P d) f db (λ e. k db e h)

  pub Keeps-for_each :
      {A : Type 0} (xs : List A) (body : A → Tx Unit)
      → ((a : A) → Keeps P (body a))
      → Keeps P (for_each xs body)
  unfolding for_each
  Keeps-for_each [] body k db h = h
  Keeps-for_each (x ∷ xs) body k db h =
      Keeps-bind (body x) (λ _. for_each xs body) (k x) (λ _. Keeps-for_each xs body k) db h

  pub Keeps-when : (b : Bool) (m : Tx Unit) → (b ≡ true → Keeps P m) → Keeps P (when b m)
  Keeps-when true m k db h = k refl db h
  Keeps-when false m k db h = h

  pub Keeps-query : {A : Type 0} (f : Db → A) → Keeps P (query f)
  Keeps-query f db h = h

  pub Keeps-pure : {A : Type 0} (a : A) → Keeps P (pure a)
  Keeps-pure a db h = h

-- A fact of a state that meets the constraints.
abbrev pub Checked {ℓ} : (Db → Type ℓ) → Db → Type ℓ
Checked Q db = (satisfies_constraints db ≡ true) × Q db

pub Checked-execute {ℓ} :
    (Q : Db → Type ℓ) (f : Db → Db) → ((db : Db) → Q db → Q (f db)) → Keeps (Checked Q) (execute f)
Checked-execute Q f k db h = Post-execute (λ _ d. Checked Q d) f db (λ e. (e, k db h.1))
