-- ===== src/Ingestion/Directions.antt =====
-- src/sombreado/ingestion/directions.py: which of a route's two lines is "ida" and which "volta", which
-- timetable belongs to which, and what passengers read.
pub mod Matches
pub mod Names
pub mod Kinds
use sombreado_service.Base.{
  ℕ, ◌+◌, ◌-◌, Bool, true, false, not, ◌&&◌, ◌||◌, Option, none, some, List, [], ◌∷◌, map, ◌++◌,
  filter, find?, any, same_codes, ◌==◌, leb, length, if◌then◌else◌,
}
use sombreado_service.Base.Order.{sorted}
use sombreado_service.Store.Errors.{Text}
use sombreado_service.Store.Schema.{Codes}
use sombreado_service.Store.Geometry.{codes}
use sombreado_service.Ingestion.Domain.{
  DirectionMatchConfidence, DirectionMatchMethod, Kind, ida, volta, RouteDirection,
  ServiceDirection, Notes, no_notes, departure_label, first_mapped_to_ida, second_mapped_to_volta,
  ServiceDirectionMatch,
}

-- What the code takes from Python: the characters of a text, `unicodedata.normalize("NFKD", ...)`,
-- `unicodedata.combining`, `str.lower`, and the `\w` of `re`.
pub record Unicode : Type 0 where
  pub spelling : Text → Codes
  pub nfkd : Codes → Codes
  pub combining : ℕ → Bool
  pub lower : Codes → Codes
  pub is_word : ℕ → Bool

unfoldable pub starts_with : Codes → Codes → Bool
starts_with [] s = true
starts_with (p ∷ ps) [] = false
starts_with (p ∷ ps) (c ∷ s) = p == c && starts_with ps s

-- `token in text`
unfoldable pub contains : Codes → Codes → Bool
contains token [] = starts_with token []
contains token (c ∷ s) = starts_with token (c ∷ s) || contains token s

abbrev pub terminal_tokens : List Codes
terminal_tokens =
    codes "ticen"
    ∷ codes "titri"
    ∷ codes "tican"
    ∷ codes "tirio"
    ∷ codes "tilag"
    ∷ codes "tisan"
    ∷ codes "terminal"
    ∷ []

-- The last word so far, if it has a letter.
abbrev pub ended_word : Codes → List Codes → List Codes
ended_word [] words = words
ended_word (c ∷ s) words = (c ∷ s) ∷ words

-- The longest runs of word characters; `\b(ida|volta)\b` matches where such a run is one of the two.
unfoldable pub words_of : (ℕ → Bool) → Codes → Codes → List Codes
words_of is_word word [] = ended_word word []
words_of is_word word (c ∷ s) =
    let longer = words_of is_word (word ++ c ∷ []) s in
    let next = words_of is_word [] s in if is_word c then longer else ended_word word next

-- The set of the two tokens, as whether each is in it.
pub record Tokens : Type 0 where
  pub has_ida : Bool
  pub has_volta : Bool

abbrev pub is_only_ida : Tokens → Bool
is_only_ida t = t.has_ida && not t.has_volta

abbrev pub is_only_volta : Tokens → Bool
is_only_volta t = t.has_volta && not t.has_ida

abbrev pub with_kind : Option Kind → RouteDirection → RouteDirection
with_kind k d = record d { direction_kind = k }

abbrev pub kind_of_tokens : Tokens → Option Kind
kind_of_tokens t = if is_only_ida t then some ida else some volta

-- `token_sets.count({"ida"}) != 1 or token_sets.count({"volta"}) != 1`, of two sets.
abbrev pub is_pair : Tokens → Tokens → Bool
is_pair s t = (is_only_ida s && is_only_volta t) || (is_only_volta s && is_only_ida t)

abbrev pub is_kind : Kind → Option Kind → Bool
is_kind k none = false
is_kind ida (some ida) = true
is_kind ida (some volta) = false
is_kind volta (some ida) = false
is_kind volta (some volta) = true

-- `_find_direction_sequence`: the place, from 1, of the only direction of the kind among two.
unfoldable pub find_direction_sequence : List RouteDirection → Kind → Option ℕ
find_direction_sequence (a ∷ b ∷ []) k =
    if is_kind k a.direction_kind
    then (if is_kind k b.direction_kind then none else some 1)
    else if is_kind k b.direction_kind
    then some 2
    else none
find_direction_sequence [] k = none
find_direction_sequence (a ∷ []) k = none
find_direction_sequence (a ∷ b ∷ c ∷ ds) k = none

abbrev pub matched :
    ℕ → ℕ → DirectionMatchConfidence → DirectionMatchMethod → Notes → ServiceDirectionMatch
matched service_sequence route_sequence confidence method notes = record {
  service_direction_sequence = service_sequence;
  route_direction_sequence = some route_sequence;
  confidence = confidence;
  method = method;
  notes = notes;
}

abbrev pub unmatched : ServiceDirection → ServiceDirectionMatch
unmatched s = record {
  service_direction_sequence = s.sequence;
  route_direction_sequence = none;
  confidence = DirectionMatchConfidence.none;
  method = DirectionMatchMethod.unmatched;
  notes = no_notes;
}

abbrev pub by_sequence : ServiceDirection → ServiceDirection → Bool
by_sequence a b = leb a.sequence b.sequence

module _ (u : Unicode) where
  -- `_normalize`
  unfoldable pub normalize : Text → Codes
  normalize value = u.lower (filter (λ c. not (u.combining c)) (u.nfkd (u.spelling value)))

  unfoldable pub looks_like_terminal_departure : Text → Bool
  looks_like_terminal_departure label = any (λ t. contains t (normalize label)) terminal_tokens

  unfoldable pub tokens_of : Text → Tokens
  tokens_of name =
      let words = map u.lower (words_of u.is_word [] (u.spelling name)) in
      record {
        has_ida = any (same_codes (codes "ida")) words;
        has_volta = any (same_codes (codes "volta")) words;
      }

  -- `classify_route_direction_pair`, as the new list.
  unfoldable pub classify_route_direction_pair : List RouteDirection → List RouteDirection
  classify_route_direction_pair (a ∷ b ∷ []) =
      let s = tokens_of a.name in
      let t = tokens_of b.name in
      if is_pair s t
      then with_kind (kind_of_tokens s) a ∷ with_kind (kind_of_tokens t) b ∷ []
      else with_kind none a ∷ with_kind none b ∷ []
  classify_route_direction_pair ds = map (with_kind none) ds

  -- The two services, of which each looks like a terminal or does not.
  unfoldable pub match_two :
      ℕ → ℕ → ServiceDirection → ServiceDirection → Bool → Bool → List ServiceDirectionMatch
  match_two ida_sequence volta_sequence first second first_terminal second_terminal =
      if first_terminal
        && second_terminal
        && not (same_codes (normalize first.departure_label) (normalize second.departure_label))
      then matched first.sequence ida_sequence DirectionMatchConfidence.medium
          DirectionMatchMethod.sequence_ida_volta (departure_label first.departure_label)
        ∷ matched second.sequence volta_sequence DirectionMatchConfidence.medium
            DirectionMatchMethod.sequence_ida_volta (departure_label second.departure_label)
        ∷ []
      else if (first_terminal && not second_terminal) || (not first_terminal && second_terminal)
      then matched first.sequence (if first_terminal then volta_sequence else ida_sequence)
          DirectionMatchConfidence.medium DirectionMatchMethod.label_order_ida_volta
          (departure_label first.departure_label)
        ∷ matched second.sequence (if second_terminal then volta_sequence else ida_sequence)
            DirectionMatchConfidence.medium DirectionMatchMethod.label_order_ida_volta
            (departure_label second.departure_label)
        ∷ []
      else matched first.sequence ida_sequence DirectionMatchConfidence.low
          DirectionMatchMethod.sequence_ida_volta first_mapped_to_ida
        ∷ matched second.sequence volta_sequence DirectionMatchConfidence.low
            DirectionMatchMethod.sequence_ida_volta second_mapped_to_volta
        ∷ []

  unfoldable pub match_services :
      Option ℕ → Option ℕ → List ServiceDirection → List ServiceDirectionMatch
  match_services (some i) (some v) (first ∷ second ∷ []) =
      match_two i v first second (looks_like_terminal_departure first.departure_label)
        (looks_like_terminal_departure second.departure_label)
  match_services i v services = map unmatched services

  unfoldable pub infer_service_direction_matches :
      List ServiceDirection → List RouteDirection → List ServiceDirectionMatch
  infer_service_direction_matches service_directions route_directions =
      match_services (find_direction_sequence route_directions ida)
        (find_direction_sequence route_directions volta) (sorted by_sequence service_directions)

-- What passengers read: the text is formatted from one of these.
pub data DirectionName : Type 0 where
  origin_destination : Text → Text → DirectionName
  origin_only : Text → DirectionName
  code_and_kind : Text → Kind → DirectionName
  own_name : Text → DirectionName

abbrev pub is_public : DirectionMatchConfidence → Bool
is_public DirectionMatchConfidence.high = true
is_public DirectionMatchConfidence.medium = true
is_public DirectionMatchConfidence.low = false
is_public DirectionMatchConfidence.none = false

-- `match_by_service.get(sequence)`: of two matches with one key the dictionary keeps the last.
unfoldable pub last_match : ℕ → List ServiceDirectionMatch → Option ServiceDirectionMatch
last_match n [] = none
last_match n (m ∷ ms) = elim (last_match n ms) [
  | some k ↦ some k
  | none ↦ if m.service_direction_sequence == n then some m else none
]

abbrev pub is_for : ℕ → Option ServiceDirectionMatch → Bool
is_for i none = false
is_for i (some m) = elim m.route_direction_sequence [
  | none ↦ false
  | some j ↦ j == i && is_public m.confidence
]

abbrev pub label_of : Option ServiceDirection → Option Text
label_of none = none
label_of (some s) = some s.departure_label

-- `origin_by_route_sequence.get(index)`: the label of the first service with a public match to it.
unfoldable pub origin_of : List ServiceDirectionMatch → List ServiceDirection → ℕ → Option Text
origin_of matches services i =
    label_of (find? (λ s. is_for i (last_match s.sequence matches)) (sorted by_sequence services))

abbrev pub is_origin : Option Text → Bool
is_origin none = false
is_origin (some t) = not (t == 0)

-- `elif origin: ... elif direction.direction_kind: ... else`
abbrev pub name_by_kind : Text → RouteDirection → Option Kind → DirectionName
name_by_kind code d none = own_name d.name
name_by_kind code d (some k) = code_and_kind code k

abbrev pub single_name : Text → Option Text → RouteDirection → DirectionName
single_name code none d = name_by_kind code d d.direction_kind
single_name code (some o) d = if o == 0 then name_by_kind code d d.direction_kind else origin_only o

unfoldable pub names_from : Text → (ℕ → Option Text) → ℕ → List RouteDirection → List DirectionName
names_from code origin index [] = []
names_from code origin index (d ∷ ds) =
    single_name code (origin index) d ∷ names_from code origin (index + 1) ds

abbrev pub pair_names :
    Text → Option Text → Option Text → RouteDirection → RouteDirection → List DirectionName
pair_names code (some o) (some p) a b =
    if not (o == 0) && not (p == 0) && not (o == p)
    then origin_destination o p ∷ origin_destination p o ∷ []
    else single_name code (some o) a ∷ single_name code (some p) b ∷ []
pair_names code o p a b = single_name code o a ∷ single_name code p b ∷ []

-- The pair of origins counts only where the route has two directions.
unfoldable pub names_with : Text → (ℕ → Option Text) → List RouteDirection → List DirectionName
names_with code origin (a ∷ b ∷ []) = pair_names code (origin 1) (origin 2) a b
names_with code origin ds = names_from code origin 1 ds

unfoldable pub passenger_facing_direction_names :
    Text
    → List RouteDirection
    → List ServiceDirection
    → List ServiceDirectionMatch
    → List DirectionName
passenger_facing_direction_names route_code route_directions service_directions matches =
    names_with route_code (origin_of matches service_directions) route_directions
