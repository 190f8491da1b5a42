-- ===== src/Ingestion/Directions/Kinds.antt =====
-- What the classification of src/sombreado/ingestion/directions.py leaves on the lines.
use sombreado_service.Base.{ℕ, Option, none, some, List, [], ◌∷◌, map, ◌≡◌, ◌⊎◌, if◌then◌else◌}
use sombreado_service.Store.Errors.{Text}
use sombreado_service.Ingestion.Domain.{Kind, ida, volta, RouteDirection}
use sombreado_service.Ingestion.Directions.{
  Unicode, Tokens, with_kind, is_pair, kind_of_tokens, find_direction_sequence,
}

abbrev pub kinds_of : List RouteDirection → List (Option Kind)
kinds_of ds = map (λ d. d.direction_kind) ds

abbrev pub names_of : List RouteDirection → List Text
names_of ds = map (λ d. d.name) ds

-- One line is found for each kind, and they are the two of the route; or none is found for any.
abbrev pub IsFound : Option ℕ → Option ℕ → Type 0
IsFound i v =
    ((i ≡ some 1) × (v ≡ some 2)) ⊎ ((i ≡ some 2) × (v ≡ some 1)) ⊎ ((i ≡ none) × (v ≡ none))

module _ (u : Unicode) where
  -- What a classification may do to the lines.
  abbrev pub IsClassified : List RouteDirection → List RouteDirection → Type 0
  IsClassified ds es =
      (names_of es ≡ names_of ds)
      × IsFound (find_direction_sequence es ida) (find_direction_sequence es volta)

  abbrev set_kinds : Tokens → Tokens → RouteDirection → RouteDirection → List RouteDirection
  set_kinds s t a b =
      if is_pair s t
      then with_kind (kind_of_tokens s) a ∷ with_kind (kind_of_tokens t) b ∷ []
      else with_kind none a ∷ with_kind none b ∷ []
