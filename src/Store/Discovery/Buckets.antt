-- ===== src/Store/Discovery/Buckets.antt =====
-- The loops of src/sombreado/store/discovery.py that gather the labels of joined rows in dictionaries.
-- The dictionaries of the items and of their labels, and the list of the keys in their order, are one
-- list of items with labels.
pub mod Grouped
use sombreado_service.Base.{
  ℕ, Bool, Option, none, some, List, [], ◌∷◌, ◌++◌, map, any, elem, ◌==◌, if◌then◌else◌,
}
use sombreado_service.Store.Errors.{Text}

-- One turn of `distinct_from`.
abbrev pub append_new : Text → List Text → List Text
append_new l bucket = if elem l bucket then bucket else bucket ++ l ∷ []

module _ {A : Type 0} (key : A → Text) where
  abbrev pub has_key : Text → List (A × List Text) → Bool
  has_key id buckets = any (λ b. key b.0 == id) buckets

  -- `if key not in assembled`
  abbrev pub ensure : A → List (A × List Text) → List (A × List Text)
  ensure a buckets = if has_key (key a) buckets then buckets else buckets ++ (a, []) ∷ []

  -- `if label is None: continue`
  abbrev pub add_label : Text → Option Text → List (A × List Text) → List (A × List Text)
  add_label id none buckets = buckets
  add_label id (some l) buckets =
      map (λ b. if key b.0 == id then (b.0, append_new l b.1) else b) buckets

  -- A row with its item, which an outer join may leave null, and its label.
  abbrev pub add_row : Option A → Option Text → List (A × List Text) → List (A × List Text)
  add_row none label buckets = buckets
  add_row (some a) label buckets = add_label (key a) label (ensure a buckets)

  unfoldable pub assembled :
      List (A × List Text) → List (Option A × Option Text) → List (A × List Text)
  assembled buckets [] = buckets
  assembled buckets (r ∷ rs) = assembled (add_row r.0 r.1 buckets) rs

-- An item without labels stands once in an outer join, with null.
abbrev pub or_null : List (Option Text) → List (Option Text)
or_null [] = none ∷ []
or_null (l ∷ ls) = l ∷ ls

-- The rows of an outer join.
module _ {A : Type 0} where
  unfoldable pub outer_rows : (A → List (Option Text)) → List A → List (Option A × Option Text)
  outer_rows labels [] = []
  outer_rows labels (a ∷ items) =
      map (λ l. (some a, l)) (or_null (labels a)) ++ outer_rows labels items

-- The labels that are not null.
abbrev pub present : List (Option Text) → List Text
present [] = []
present (none ∷ ls) = present ls
present (some l ∷ ls) = l ∷ present ls
