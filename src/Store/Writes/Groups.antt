-- ===== src/Store/Writes/Groups.antt =====
-- The denormalised segments of a direction are computed from all its segment rows, in order.
use sombreado_service.Base.{
  ℕ, ◌≡◌, refl, sym, ◌∙◌, Bool-cases, inl, inr, Option, none, some, List, [], ◌∷◌, ◌++◌, ◌==◌,
  filter, arith, if◌then◌else◌,
}
use mathlib.Core.Path.{subst}
use mathlib.Core.Option.{some-injective}
use mathlib.Core.List.{append_assoc, append-nil}
use sombreado_service.Base.Order.{sorted}
use sombreado_service.Store.Errors.{Text}
use sombreado_service.Store.Schema.{Codes, AdviceSegment}
use sombreado_service.Store.Writes.{
  SegmentRow, add_to_group, grouped_from, get_or_nil, sequence_le, advice_segments_of,
  advice_groups, advice_segments_by_direction,
}

get_or_nil-add_to_group :
    (k d : Text) (row : SegmentRow) (groups : List (Text × List SegmentRow))
    → get_or_nil d (add_to_group k row groups)
      ≡ (if k == d then get_or_nil d groups ++ row ∷ [] else get_or_nil d groups)
unfolding get_or_nil add_to_group
get_or_nil-add_to_group k d row [] = ground arith
get_or_nil-add_to_group k d row ((j, rows) ∷ groups) =
    ground (arith, get_or_nil-add_to_group k d row groups)

get_or_nil-grouped_from :
    (d : Text) (groups : List (Text × List SegmentRow)) (rows : List SegmentRow)
    → get_or_nil d (grouped_from groups rows)
      ≡ get_or_nil d groups ++ filter (λ s. s.route_direction_id == d) rows
unfolding grouped_from
get_or_nil-grouped_from d groups [] = sym (append-nil (get_or_nil d groups))
get_or_nil-grouped_from d groups (row ∷ rows) =
    get_or_nil-grouped_from d (add_to_group row.route_direction_id row groups) rows
    ∙ regroup (get_or_nil-add_to_group row.route_direction_id d row groups)
  where
    more : List SegmentRow
    more = filter (λ s. s.route_direction_id == d) rows

    regroup :
        get_or_nil d (add_to_group row.route_direction_id row groups) ≡ (
          if row.route_direction_id == d
          then get_or_nil d groups ++ row ∷ []
          else get_or_nil d groups)
        → get_or_nil d (add_to_group row.route_direction_id row groups) ++ more
          ≡ get_or_nil d groups ++ (if row.route_direction_id == d then row ∷ more else more)
    regroup e = elim (Bool-cases (row.route_direction_id == d)) [
      | inl p ↦ rw (e, p) (append_assoc (get_or_nil d groups) (row ∷ []) more)
      | inr p ↦ rw (e, p) refl
    ]

module _ (float : Codes → Option ℕ) (d : Text) where
  abbrev IsDenormOf : List (Text × List SegmentRow) → List (Text × List AdviceSegment) → Type 0
  IsDenormOf groups out =
      advice_segments_of float (sorted sequence_le (get_or_nil d groups)) ≡ some (get_or_nil d out)

  nil_segments : advice_segments_of float (sorted sequence_le []) ≡ some []
  unfolding advice_segments_of sorted
  nil_segments = refl

  advice_groups-IsDenormOf :
      (groups : List (Text × List SegmentRow)) (out : List (Text × List AdviceSegment))
      → advice_groups float groups ≡ some out
      → IsDenormOf groups out
  unfolding advice_groups get_or_nil
  advice_groups-IsDenormOf [] out h = subst (IsDenormOf []) (some-injective _ _ h) nil_segments
  advice_groups-IsDenormOf ((k, rows) ∷ groups) out h =
      go (advice_segments_of float (sorted sequence_le rows)) (advice_groups float groups) refl refl
        h (advice_groups-IsDenormOf groups)
    where
      go :
          (a : Option (List AdviceSegment)) (b : Option (List (Text × List AdviceSegment)))
          → advice_segments_of float (sorted sequence_le rows) ≡ a
          → advice_groups float groups ≡ b
          → advice_groups float ((k, rows) ∷ groups) ≡ some out
          → ((out' : List (Text × List AdviceSegment))
              → advice_groups float groups ≡ some out'
              → IsDenormOf groups out')
          → IsDenormOf ((k, rows) ∷ groups) out
      go none b e₁ e₂ h ih = cc (rw (e₁, advice_groups) at h)
      go (some a) none e₁ e₂ h ih = cc (rw (e₁, e₂, advice_groups) at h)
      go (some a) (some rest) e₁ e₂ h ih =
          subst (λ o. IsDenormOf ((k, rows) ∷ groups) o)
            (some-injective _ _ (rw (e₁, e₂, advice_groups) at h))
            (elim (Bool-cases (k == d)) [ inl p ↦ rw p e₁ | inr p ↦ rw p (ih rest e₂) ])

-- Where the columns are computed, each direction's column holds the segments of exactly the rows of that direction, by sequence.
pub advice_segments_by_direction_lem :
    (float : Codes → Option ℕ) (rows : List SegmentRow) (advice : List (Text × List AdviceSegment))
    (d : Text)
    → advice_segments_by_direction float rows ≡ some advice
    → advice_segments_of float (sorted sequence_le (filter (λ s. s.route_direction_id == d) rows))
      ≡ some (get_or_nil d advice)
unfolding advice_segments_by_direction get_or_nil
advice_segments_by_direction_lem float rows advice d h =
    subst (λ l. advice_segments_of float (sorted sequence_le l) ≡ some (get_or_nil d advice))
      (get_or_nil-grouped_from d [] rows)
      (advice_groups-IsDenormOf float d (grouped_from [] rows) advice h)
