-- ===== src/Ingestion/Directions/Names.antt =====
-- The names that passengers read, src/sombreado/ingestion/directions.py.
use sombreado_service.Base.{
  ℕ, ◌+◌, Option, none, some, List, [], ◌∷◌, ◌≡◌, refl, ap, suc, length, arith,
}
use sombreado_service.Store.Errors.{Text}
use sombreado_service.Ingestion.Domain.{RouteDirection, ServiceDirection, ServiceDirectionMatch}
use sombreado_service.Ingestion.Directions.{
  names_from, names_with, pair_names, passenger_facing_direction_names, origin_of,
}

length-names_from :
    (code : Text) (origin : ℕ → Option Text) (i : ℕ) (ds : List RouteDirection)
    → length (names_from code origin i ds) ≡ length ds
unfolding names_from
length-names_from code origin i [] = refl
length-names_from code origin i (d ∷ ds) = ap suc (length-names_from code origin (i + 1) ds)

length-pair_names :
    (code : Text) (o p : Option Text) (a b : RouteDirection) → length (pair_names code o p a b) ≡ 2
length-pair_names code none p a b = refl
length-pair_names code (some o) none a b = refl
length-pair_names code (some o) (some p) a b = ground arith

length-names_with :
    (code : Text) (origin : ℕ → Option Text) (ds : List RouteDirection)
    → length (names_with code origin ds) ≡ length ds
unfolding names_with names_from
length-names_with code origin [] = refl
length-names_with code origin (a ∷ []) = length-names_from code origin 1 (a ∷ [])
length-names_with code origin (a ∷ b ∷ []) = length-pair_names code (origin 1) (origin 2) a b
length-names_with code origin (a ∷ b ∷ c ∷ ds) = length-names_from code origin 1 (a ∷ b ∷ c ∷ ds)

-- Each route direction gets one name.
pub length-passenger_facing_direction_names :
    (code : Text) (ds : List RouteDirection) (ss : List ServiceDirection)
    (ms : List ServiceDirectionMatch)
    → length (passenger_facing_direction_names code ds ss ms) ≡ length ds
unfolding passenger_facing_direction_names
length-passenger_facing_direction_names code ds ss ms = length-names_with code (origin_of ms ss) ds
