-- ===== src/Store/Geometry.antt =====
-- `geography_wkt` and `_linestring_coordinates` of src/sombreado/store/generation_writes.py, over the
-- characters of a text. `upper` and `strip` treat ASCII; Python's `float` is a parameter.
pub mod Read
use sombreado_service.Base.{
  ◌≡◌, refl, ℕ, ◌-◌, Bool, true, false, not, ◌&&◌, ◌||◌, Option, none, some, List, [], ◌∷◌, ◌++◌,
  map, same_codes, ◌==◌, leb, if◌then◌else◌,
}
use sombreado_service.Store.Schema.{Codes}
use Prim.Native.Char.{code}
use Prim.Native.String.{String}

abbrev pub codes : String → Codes
codes String.[] = []
codes (String.◌∷◌ c s) = code c ∷ codes s

unfoldable pub is_space : ℕ → Bool
is_space c = c == 32 || leb 9 c && leb c 13

pub strip_left : Codes → Codes
unfolding is_space
strip_left [] = []
strip_left (c ∷ s) = let rest = strip_left s in if is_space c then rest else c ∷ s

-- Drops trailing spaces: a space goes if all behind it has gone.
pub strip_right : Codes → Codes
unfolding is_space
strip_right [] = []
strip_right (c ∷ s) = elim (strip_right s) [
  | [] ↦ if is_space c then [] else c ∷ []
  | d ∷ r ↦ c ∷ d ∷ r
]

-- `text.strip()`
unfoldable pub strip : Codes → Codes
unfolding strip_left strip_right
strip s = strip_right (strip_left s)

pub upper_code : ℕ → ℕ
upper_code c = if leb b'a' c && leb c b'z' then c - 32 else c

-- `s.upper().startswith(prefix)`
unfoldable pub upper_starts_with : Codes → Codes → Bool
unfolding upper_code
upper_starts_with [] s = true
upper_starts_with (p ∷ ps) [] = false
upper_starts_with (p ∷ ps) (c ∷ s) = upper_code c == p && upper_starts_with ps s

-- `s.partition(sep)`: what stands before and behind the first separator.
unfoldable pub partition : ℕ → Codes → Codes × Option Codes
partition sep [] = ([], none)
partition sep (c ∷ s) =
    let (before, behind) = partition sep s in
    if c == sep then ([], some s) else (c ∷ before, behind)

unfoldable pub is_empty : Codes → Bool
is_empty [] = true
is_empty (_ ∷ _) = false

abbrev pub srid_4326 : Codes
srid_4326 = codes "SRID=4326"

-- `f"SRID=4326;{wkt}"`
abbrev pub with_srid : Codes → Codes
with_srid wkt = srid_4326 ++ b';' ∷ wkt

-- A text that begins with a SRID: `none` is a ValueError.
pub ewkt_body : Codes → Option Codes → Option Codes
unfolding is_empty upper_code
ewkt_body srid_part none = none
ewkt_body srid_part (some body) =
    let wkt = strip body in
    if is_empty wkt
    then none
    else if not (same_codes (map upper_code srid_part) srid_4326)
    then none
    else if not (upper_starts_with (codes "LINESTRING") wkt)
    then none
    else some (with_srid wkt)

unfoldable pub geography_wkt : Codes → Option Codes
unfolding ewkt_body strip upper_starts_with partition
geography_wkt geometry =
    let text = strip geometry in
    if upper_starts_with (codes "SRID=") text
    then (let (srid_part, body) = partition b';' text in ewkt_body srid_part body)
    else if not (upper_starts_with (codes "LINESTRING") text)
    then none
    else some (with_srid text)

-- `s[s.index("(") + 1 :]`
pub behind_open : Codes → Option Codes
behind_open s = (partition b'(' s).1

-- `s[: s.rindex(")")]`
pub before_close : Codes → Option Codes
before_close [] = none
before_close (c ∷ s) = elim (before_close s) [
  | some r ↦ some (c ∷ r)
  | none ↦ if c == b')' then some [] else none
]

-- `s.split(",")`
pub split_commas : Codes → List Codes
split_commas [] = [] ∷ []
split_commas (c ∷ s) = elim (split_commas s) [
  | [] ↦ (c ∷ []) ∷ []
  | w ∷ ws ↦ if c == b',' then [] ∷ w ∷ ws else (c ∷ w) ∷ ws
]

-- The words of `s.split()`, the characters read so far in `word`.
pub words_from : Codes → Codes → List Codes
unfolding is_space is_empty
words_from word [] = if is_empty word then [] else word ∷ []
words_from word (c ∷ s) =
    let more = words_from (word ++ c ∷ []) s in
    let next = words_from [] s in
    if is_space c then (if is_empty word then next else word ∷ next) else more

module _ (float : Codes → Option ℕ) where
  -- `[float(point.split()[0]), float(point.split()[1])]`
  pub point : List Codes → Option (ℕ × ℕ)
  point [] = none
  point (lon ∷ []) = none
  point (lon ∷ lat ∷ _) = elim (float lon) [
    | none ↦ none
    | some x ↦ elim (float lat) [ none ↦ none | some y ↦ some (x, y) ]
  ]

  pub points : List Codes → Option (List (ℕ × ℕ))
  points [] = some []
  points (w ∷ ws) = elim (point (words_from [] w)) [
    | none ↦ none
    | some p ↦ elim (points ws) [ none ↦ none | some ps ↦ some (p ∷ ps) ]
  ]

  pub points_inside : Option Codes → Option (List (ℕ × ℕ))
  points_inside none = none
  points_inside (some inner) = points (split_commas inner)

  -- `body` is what stands behind the first `;`, between its outer parentheses; `none` is a ValueError
  -- (or an IndexError, for a point with one coordinate).
  unfoldable pub linestring_coordinates : Codes → Option (List (ℕ × ℕ))
  unfolding geography_wkt partition behind_open before_close split_commas words_from point points
      points_inside
  linestring_coordinates geometry = elim (geography_wkt geometry) [
    | none ↦ none
    | some wkt ↦ elim (partition b';' wkt).1 [
      | none ↦ none
      | some body ↦ elim (behind_open body) [
        | none ↦ none
        | some s ↦ points_inside (before_close s)
      ]
    ]
  ]

geography_wkt_example :
    geography_wkt (codes " srid=4326; linestring(1 2, 3 4)")
    ≡ some (codes "SRID=4326;linestring(1 2, 3 4)")
unfolding geography_wkt
geography_wkt_example = refl
