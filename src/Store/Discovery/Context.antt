-- ===== src/Store/Discovery/Context.antt =====
-- What each status of an advice context says of the store.
use sombreado_service.Base.{
  ◌≡◌, ◌≢◌, refl, ap, inl, inr, Bool, false, not, Option, none, some, List, [], ◌∷◌, ◌==◌, any,
  find?, is_some, if◌then◌else◌, arith, Bool-cases, eq_of-==,
}
use mathlib.Core.Path.{subst}
use sombreado_service.Store.Errors.{Text}
use sombreado_service.Store.Schema.{
  Db, RouteDirectionRecord, DatasetRouteVersionRecord, AdviceSegment,
}
use sombreado_service.Store.Discovery.{
  current_members, first_version, load_current_route_version_id, is_direction,
  AdviceRouteContextStatus, context_ok, route_not_found, route_version_stale,
  route_direction_not_found, resolve_advice_route_context_status, AdviceRouteContextRow, context_of,
  context_row, load_advice_route_context,
}

-- The version that passengers are shown for the route, compared with the requested one, and the
-- direction among those of that version.
abbrev pub TellsBy :
    Text
    → Text
    → Option Text
    → List RouteDirectionRecord
    → AdviceRouteContextStatus
    → List AdviceSegment
    → Type 0
TellsBy requested direction current directions route_not_found s = current ≡ none
TellsBy requested direction current directions route_version_stale s =
    (v : Text) × (current ≡ some v) × (v ≢ requested)
TellsBy requested direction current directions route_direction_not_found s =
    (current ≡ some requested) × (any (is_direction requested direction) directions ≡ false)
TellsBy requested direction current directions context_ok s =
    (current ≡ some requested)
    × ((d : RouteDirectionRecord) × (find? (is_direction requested direction) directions ≡ some d)
        × (s ≡ d.advice_segments))

abbrev pub Tells :
    Text → Text → Option Text → List RouteDirectionRecord → AdviceRouteContextRow → Type 0
Tells requested direction current directions row =
    TellsBy requested direction current directions row.status row.segments

any_of_find? :
    (p : RouteDirectionRecord → Bool) (ds : List RouteDirectionRecord)
    → find? p ds ≡ none
    → any p ds ≡ false
any_of_find? p [] h = refl
any_of_find? p (d ∷ ds) h = elim (Bool-cases (p d)) [
  | inl e ↦ absurd (none_ne_some (rw e at h))
  | inr e ↦ rw e (any_of_find? p ds (rw e at h))
]
  where
    none_ne_some : some d ≡ none → ⊥
    none_ne_some q = cc q

context_of-Tells :
    (requested direction : Text) (o : Option DatasetRouteVersionRecord)
    (directions : List RouteDirectionRecord)
    → Tells requested direction
        (first_version o)
        directions
        (context_of requested direction o directions)
unfolding resolve_advice_route_context_status
context_of-Tells requested direction none directions = refl
context_of-Tells requested direction (some m) directions =
    elim (Bool-cases (m.route_version_id == requested)) [
      | inl e ↦ rw e (by_direction (eq_of-== m.route_version_id requested e) _ refl)
      | inr e ↦ rw e (m.route_version_id, refl, λ p. ground (arith, e, p))
    ]
  where
    by_direction :
        m.route_version_id ≡ requested
        → (o : Option RouteDirectionRecord)
        → find? (is_direction m.route_version_id direction) directions ≡ o
        → Tells requested direction
            (some m.route_version_id)
            directions
            (context_row (if not (is_some o) then route_direction_not_found else context_ok) o)
    by_direction v none e = (
      ap some v,
      any_of_find? (is_direction requested direction) directions
          (subst (λ x. find? (is_direction x direction) directions ≡ none) v e),
    )
    by_direction v (some d) e = (
      ap some v,
      (d, subst (λ x. find? (is_direction x direction) directions ≡ some d) v e, refl),
    )

-- What the status of an advice context says: `route_not_found` that the current generation has no
-- version of the route; `route_version_stale` that its version is another than the requested one;
-- `route_direction_not_found` that the version has no such direction; and "ok" that the segments are
-- the column of that direction of the current version.
pub load_advice_route_context-Tells :
    (route_id route_version_id route_direction_id : Text) (db : Db)
    → Tells route_version_id route_direction_id
        (load_current_route_version_id route_id db)
        db.route_directions
        (load_advice_route_context route_id route_version_id route_direction_id db)
unfolding load_advice_route_context load_current_route_version_id
load_advice_route_context-Tells route_id route_version_id route_direction_id db =
    context_of-Tells route_version_id route_direction_id
      (find? (λ m. m.route_id == route_id) (current_members db.current db)) db.route_directions
