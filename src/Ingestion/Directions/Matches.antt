-- ===== src/Ingestion/Directions/Matches.antt =====
-- What src/sombreado/ingestion/directions.py infers of timetables and lines.
use sombreado_service.Base.{
  ℕ, Bool, Option, none, some, List, [], ◌∷◌, map, ◌≡◌, refl, ap, ◌⊎◌, inl, inr, arith,
  if◌then◌else◌,
}
use sombreado_service.Base.Order.{sorted}
use sombreado_service.Ingestion.Domain.{
  Kind, ida, volta, RouteDirection, ServiceDirection, ServiceDirectionMatch,
}
use sombreado_service.Ingestion.Directions.{
  Unicode, match_two, match_services, infer_service_direction_matches, find_direction_sequence,
  by_sequence, unmatched, is_kind,
}

abbrev pub services_of : List ServiceDirectionMatch → List ℕ
services_of ms = map (λ m. m.service_direction_sequence) ms

abbrev pub directions_of : List ServiceDirectionMatch → List (Option ℕ)
directions_of ms = map (λ m. m.route_direction_sequence) ms

abbrev pub sequences_of : List ServiceDirection → List ℕ
sequences_of ss = map (λ s. s.sequence) ss

services_of-unmatched :
    (ss : List ServiceDirection) → services_of (map unmatched ss) ≡ sequences_of ss
services_of-unmatched [] = refl
services_of-unmatched (s ∷ ss) = ap (λ ns. s.sequence ∷ ns) (services_of-unmatched ss)

directions_of-unmatched :
    (ss : List ServiceDirection) → directions_of (map unmatched ss) ≡ map (λ s. none) ss
directions_of-unmatched [] = refl
directions_of-unmatched (s ∷ ss) = ap (λ ns. none ∷ ns) (directions_of-unmatched ss)

-- Each of the two lines is matched, in one of the two orders.
abbrev pub IsBoth : List (Option ℕ) → Type 0
IsBoth ds = (ds ≡ some 1 ∷ some 2 ∷ []) ⊎ (ds ≡ some 2 ∷ some 1 ∷ [])

abbrev IsPair : Option ℕ → Option ℕ → Type 0
IsPair none v = Unit
IsPair (some i) none = Unit
IsPair (some i) (some v) = ((i ≡ 1) × (v ≡ 2)) ⊎ ((i ≡ 2) × (v ≡ 1))

abbrev place : Kind → Option Kind → Option Kind → Option ℕ
place k a b =
    if is_kind k a
    then (if is_kind k b then none else some 1)
    else if is_kind k b
    then some 2
    else none

place-IsPair : (a b : Option Kind) → IsPair (place ida a b) (place volta a b)
place-IsPair none none = tt
place-IsPair none (some ida) = tt
place-IsPair none (some volta) = tt
place-IsPair (some ida) none = tt
place-IsPair (some ida) (some ida) = tt
place-IsPair (some ida) (some volta) = inl (refl, refl)
place-IsPair (some volta) none = tt
place-IsPair (some volta) (some ida) = inr (refl, refl)
place-IsPair (some volta) (some volta) = tt

find_direction_sequence-IsPair :
    (ds : List RouteDirection)
    → IsPair (find_direction_sequence ds ida) (find_direction_sequence ds volta)
unfolding find_direction_sequence
find_direction_sequence-IsPair [] = tt
find_direction_sequence-IsPair (a ∷ []) = tt
find_direction_sequence-IsPair (a ∷ b ∷ c ∷ ds) = tt
find_direction_sequence-IsPair (a ∷ b ∷ []) = place-IsPair a.direction_kind b.direction_kind

IsBoth-IsPair :
    (i v : ℕ) (ds : List (Option ℕ))
    → IsPair (some i) (some v)
    → (ds ≡ some i ∷ some v ∷ []) ⊎ (ds ≡ some v ∷ some i ∷ [])
    → IsBoth ds
IsBoth-IsPair i v ds (inl (e, f)) (inl d) = inl cc
IsBoth-IsPair i v ds (inl (e, f)) (inr d) = inr cc
IsBoth-IsPair i v ds (inr (e, f)) (inl d) = inr cc
IsBoth-IsPair i v ds (inr (e, f)) (inr d) = inl cc

module _ (u : Unicode) where
  services_of-match_two :
      (i v : ℕ) (a b : ServiceDirection) (s t : Bool)
      → services_of (match_two u i v a b s t) ≡ a.sequence ∷ b.sequence ∷ []
  unfolding match_two
  services_of-match_two i v a b s t = ground arith

  directions_of-match_two :
      (i v : ℕ) (a b : ServiceDirection) (s t : Bool)
      → (directions_of (match_two u i v a b s t) ≡ some i ∷ some v ∷ [])
        ⊎ (directions_of (match_two u i v a b s t) ≡ some v ∷ some i ∷ [])
  unfolding match_two
  directions_of-match_two i v a b s t = ground arith

  services_of-match_services :
      (i v : Option ℕ) (ss : List ServiceDirection)
      → services_of (match_services u i v ss) ≡ sequences_of ss
  unfolding match_services
  services_of-match_services (some i) (some v) (a ∷ b ∷ []) = services_of-match_two i v a b _ _
  services_of-match_services (some i) (some v) [] = refl
  services_of-match_services (some i) (some v) (a ∷ []) = refl
  services_of-match_services (some i) (some v) (a ∷ b ∷ c ∷ ss) =
      services_of-unmatched (a ∷ b ∷ c ∷ ss)
  services_of-match_services (some i) none ss = services_of-unmatched ss
  services_of-match_services none v ss = services_of-unmatched ss

  -- The result has one match for each service direction, in the order of their sequences.
  pub services_of-infer_service_direction_matches :
      (ss : List ServiceDirection) (ds : List RouteDirection)
      → services_of (infer_service_direction_matches u ss ds) ≡ sequences_of (sorted by_sequence ss)
  unfolding infer_service_direction_matches
  services_of-infer_service_direction_matches ss ds =
      services_of-match_services (find_direction_sequence ds ida) (find_direction_sequence ds volta)
        (sorted by_sequence ss)

  directions_of-match_services :
      (i v : Option ℕ) (ss : List ServiceDirection)
      → IsPair i v
      → IsBoth (directions_of (match_services u i v ss))
        ⊎ (directions_of (match_services u i v ss) ≡ map (λ s. none) ss)
  unfolding match_services
  directions_of-match_services (some i) (some v) (a ∷ b ∷ []) h =
      inl (IsBoth-IsPair i v _ h (directions_of-match_two i v a b _ _))
  directions_of-match_services (some i) (some v) [] h = inr refl
  directions_of-match_services (some i) (some v) (a ∷ []) h = inr refl
  directions_of-match_services (some i) (some v) (a ∷ b ∷ c ∷ ss) h =
      inr (directions_of-unmatched (a ∷ b ∷ c ∷ ss))
  directions_of-match_services (some i) none ss h = inr (directions_of-unmatched ss)
  directions_of-match_services none v ss h = inr (directions_of-unmatched ss)

  -- Either the two lines of the route are matched, each to one timetable, or no timetable is matched.
  pub infer_service_direction_matches-IsBoth :
      (ss : List ServiceDirection) (ds : List RouteDirection)
      → IsBoth (directions_of (infer_service_direction_matches u ss ds))
        ⊎ (directions_of (infer_service_direction_matches u ss ds)
            ≡ map (λ s. none) (sorted by_sequence ss))
  unfolding infer_service_direction_matches
  infer_service_direction_matches-IsBoth ss ds =
      directions_of-match_services (find_direction_sequence ds ida)
        (find_direction_sequence ds volta) (sorted by_sequence ss)
        (find_direction_sequence-IsPair ds)
