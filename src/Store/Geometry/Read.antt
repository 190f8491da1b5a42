-- ===== src/Store/Geometry/Read.antt =====
-- How `_linestring_coordinates` of src/sombreado/store/generation_writes.py reads a line that is written
-- as `SRID=4326;LINESTRING(x y, x y)`.
use sombreado_service.Base.{
  ℕ, false, Option, some, List, [], ◌∷◌, ◌++◌, All, All-append, All-weaken, Bool-cases, inl, inr,
  ◌==◌, ◌≡◌, refl, ap, sym, ◌∙◌,
}
use mathlib.Core.List.{append_assoc, append-nil}
use sombreado_service.Store.Schema.{Codes}
use sombreado_service.Store.Geometry.{
  codes, is_space, strip_left, strip_right, strip, upper_code, upper_starts_with, partition,
  is_empty, ewkt_body, geography_wkt, behind_open, before_close, split_commas, words_from, point,
  points, points_inside, linestring_coordinates, with_srid,
}

-- A character of a printed float.
abbrev pub IsPlain : ℕ → Type 0
IsPlain c = (is_space c ≡ false) × ((c == b',') ≡ false)

-- A printed float: it has a character, and only plain ones.
abbrev pub IsPrinted : Codes → Type 0
IsPrinted w = (is_empty w ≡ false) × All IsPlain w

strip_right-close : (s : Codes) → strip_right (s ++ b')' ∷ []) ≡ s ++ b')' ∷ []
unfolding strip_right is_space
strip_right-close [] = refl
strip_right-close (c ∷ []) = refl
strip_right-close (c ∷ d ∷ s) = rw (strip_right-close (d ∷ s)) refl

before_close-append : (s : Codes) → before_close (s ++ b')' ∷ []) ≡ some s
unfolding before_close
before_close-append [] = refl
before_close-append (c ∷ s) = rw (before_close-append s) refl

abbrev body : Codes → Codes
body inner = codes "LINESTRING(" ++ (inner ++ b')' ∷ [])

strip-body : (inner : Codes) → strip (body inner) ≡ body inner
unfolding strip strip_left is_space
strip-body inner = strip_right-close (codes "LINESTRING(" ++ inner)

strip-with_srid : (inner : Codes) → strip (with_srid (body inner)) ≡ with_srid (body inner)
unfolding strip strip_left is_space
strip-with_srid inner = strip_right-close (codes "SRID=4326;LINESTRING(" ++ inner)

geography_wkt-with_srid :
    (inner : Codes) → geography_wkt (with_srid (body inner)) ≡ some (with_srid (body inner))
unfolding geography_wkt ewkt_body upper_starts_with upper_code partition is_empty
geography_wkt-with_srid inner = rw (strip-with_srid inner, strip-body inner) refl

words_from-plain :
    (word w s : Codes) → All IsPlain w → words_from word (w ++ s) ≡ words_from (word ++ w) s
unfolding words_from
words_from-plain word [] s h = rw (append-nil word) refl
words_from-plain word (c ∷ w) s h = rw (h.0.0) (
    words_from-plain (word ++ c ∷ []) w s h.1
    ∙ ap (λ v. words_from v s) (append_assoc word (c ∷ []) w))

words_from-end : (word : Codes) → is_empty word ≡ false → words_from word [] ≡ word ∷ []
unfolding words_from
words_from-end word h = rw h refl

words_from-space :
    (word s : Codes) → is_empty word ≡ false → words_from word (b' ' ∷ s) ≡ word ∷ words_from [] s
unfolding words_from is_space
words_from-space word s h = rw h refl

words_from-two :
    (a b : Codes) → IsPrinted a → IsPrinted b → words_from [] (a ++ b' ' ∷ b) ≡ a ∷ b ∷ []
words_from-two a b h k =
    words_from-plain [] a (b' ' ∷ b) h.1
    ∙ words_from-space a b h.0
    ∙ ap (λ ws. a ∷ ws)
        (ap (words_from []) (sym (append-nil b))
          ∙ words_from-plain [] b [] k.1
          ∙ words_from-end b k.0)

split_commas-some : (s : Codes) → (w : Codes) × (ws : List Codes) × (split_commas s ≡ w ∷ ws)
unfolding split_commas
split_commas-some [] = ([], [], refl)
split_commas-some (c ∷ s) =
    let r = split_commas-some s in
    elim (Bool-cases (c == b',')) [
      | inl p ↦ ([], r.0 ∷ r.1, rw (r.2, p) refl)
      | inr p ↦ (c ∷ r.0, r.1, rw (r.2, p) refl)
    ]

abbrev NoComma : Codes → Type 0
NoComma w = All (λ c. (c == b',') ≡ false) w

split_commas-plain : (w s : Codes) → NoComma w → split_commas (w ++ b',' ∷ s) ≡ w ∷ split_commas s
unfolding split_commas
split_commas-plain [] s h = rw (split_commas-some s).2 refl
split_commas-plain (c ∷ w) s h = rw (split_commas-plain w s h.1, h.0) refl

split_commas-alone : (w : Codes) → NoComma w → split_commas w ≡ w ∷ []
unfolding split_commas
split_commas-alone [] h = refl
split_commas-alone (c ∷ w) h = rw (split_commas-alone w h.1, h.0) refl

NoComma-two : (a b : Codes) → IsPrinted a → IsPrinted b → NoComma (a ++ b' ' ∷ b)
NoComma-two a b h k =
    All-append _ a (b' ' ∷ b) (All-weaken _ _ a (λ c p. p.1) h.1)
      (refl, All-weaken _ _ b (λ c p. p.1) k.1)

module _ (float : Codes → Option ℕ) where
  points-space :
      (s : Codes) → points float (split_commas (b' ' ∷ s)) ≡ points float (split_commas s)
  unfolding split_commas points words_from is_space
  points-space s = rw (split_commas-some s).2 refl

  module _ (a b : Codes) (x y : ℕ) (h : IsPrinted a) (k : IsPrinted b) (read_a : float a ≡ some x)
      (read_b : float b ≡ some y) where
    point-two : point float (words_from [] (a ++ b' ' ∷ b)) ≡ some (x, y)
    unfolding point
    point-two = ap (point float) (words_from-two a b h k) ∙ rw (point, read_a, read_b) refl

    points-one : points float ((a ++ b' ' ∷ b) ∷ []) ≡ some ((x, y) ∷ [])
    unfolding points
    points-one = rw (points, point-two) refl

    points-cons :
        (ws : List Codes) (ps : List (ℕ × ℕ))
        → points float ws ≡ some ps
        → points float ((a ++ b' ' ∷ b) ∷ ws) ≡ some ((x, y) ∷ ps)
    unfolding points
    points-cons ws ps e = rw (points, point-two, e) refl

    -- The last point of a line.
    pub points-last : points float (split_commas (a ++ b' ' ∷ b)) ≡ some ((x, y) ∷ [])
    points-last = ap (points float) (split_commas-alone _ (NoComma-two a b h k)) ∙ points-one

    -- A point in front of others.
    pub points-more :
        (s : Codes) (ps : List (ℕ × ℕ))
        → points float (split_commas s) ≡ some ps
        → points float (split_commas (a ++ b' ' ∷ (b ++ b',' ∷ b' ' ∷ s))) ≡ some ((x, y) ∷ ps)
    points-more s ps e =
        ap (λ t. points float (split_commas t)) (sym (append_assoc a (b' ' ∷ b) (b',' ∷ b' ' ∷ s)))
        ∙ ap (points float) (split_commas-plain (a ++ b' ' ∷ b) (b' ' ∷ s) (NoComma-two a b h k))
        ∙ points-cons (split_commas (b' ' ∷ s)) ps (points-space s ∙ e)

  pub linestring_coordinates-body :
      (inner : Codes)
      → linestring_coordinates float (codes "SRID=4326;LINESTRING(" ++ (inner ++ b')' ∷ []))
        ≡ points float (split_commas inner)
  unfolding linestring_coordinates partition behind_open points_inside
  linestring_coordinates-body inner =
      rw (linestring_coordinates, geography_wkt-with_srid inner)
        (ap (points_inside float) (before_close-append inner))
