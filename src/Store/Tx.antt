-- ===== src/Store/Tx.antt =====
-- A transaction on the store: statements that may raise. A statement whose result breaks a
-- constraint raises; every raise ends in the rollback of the `except BaseException` handlers, so no
-- state comes back with an error.
use sombreado_service.Base.{Bool, true, false, List, [], ◌∷◌, if◌then◌else◌, Option}
use sombreado_service.Store.Errors.{StoreError, integrity}
use sombreado_service.Store.Schema.{Db, satisfies_constraints}

pub data Result {ℓ} (A : Type ℓ) : Type ℓ where
  ok : A → Result A
  err : StoreError → Result A

abbrev pub Tx : Type 0 → Type 0
Tx A = Db → Result (A × Db)

-- A method of the store: the database comes back whether it returns or raises.
abbrev pub Method : Type 0 → Type 0
Method A = Db → Result A × Db

module _ {A : Type 0} where
  abbrev pub pure : A → Tx A
  pure a db = ok (a, db)

  abbrev pub raise : StoreError → Tx A
  raise e db = err e

  abbrev pub query : (Db → A) → Tx A
  query f db = ok (f db, db)

  abbrev pub or_raise : Option A → StoreError → Tx A
  or_raise Option.none e = raise e
  or_raise (Option.some a) e = pure a

infixl 5 ◌>>=◌ ◌>>◌
abbrev pub ◌>>=◌ : {A B : Type 0} → Tx A → (A → Tx B) → Tx B
◌>>=◌ m f db = elim (m db) [ ok (a, db') ↦ f a db' | err e ↦ err e ]

abbrev pub ◌>>◌ : {A B : Type 0} → Tx A → Tx B → Tx B
m >> k = m >>= λ _. k

abbrev pub raise_if : Bool → StoreError → Tx Unit
raise_if true e = raise e
raise_if false e = pure tt

abbrev pub when : Bool → Tx Unit → Tx Unit
when true m = m
when false m = pure tt

-- One INSERT, UPDATE or DELETE.
unfoldable pub execute : (Db → Db) → Tx Unit
execute f db = if satisfies_constraints (f db) then ok (tt, f db) else err integrity

module _ {A : Type 0} where
  -- `for x in xs: body(x)`
  unfoldable pub for_each : List A → (A → Tx Unit) → Tx Unit
  for_each [] body = pure tt
  for_each (x ∷ xs) body = body x >> for_each xs body

module _ {A : Type 0} where
  -- `with self.connection()`: commit on return, rollback on a raise.
  unfoldable pub transaction : Tx A → Method A
  transaction m db = elim (m db) [ ok (a, db') ↦ (ok a, db') | err e ↦ (err e, db) ]
