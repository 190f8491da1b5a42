-- ===== src/Ingestion/Canonical/Wkt.antt =====
-- The lines that src/sombreado/ingestion/canonical.py writes are read back by
-- src/sombreado/store/generation_writes.py.
use sombreado_service.Base.{ℕ, Option, some, List, [], ◌∷◌, ◌≡◌, ◌∙◌}
use sombreado_service.Store.Schema.{Codes}
use sombreado_service.Store.Geometry.{linestring_coordinates, points, split_commas}
use sombreado_service.Store.Geometry.Read.{
  IsPrinted, points-last, points-more, linestring_coordinates-body,
}
use sombreado_service.Ingestion.Canonical.{joined, linestring_wkt}

module _ (print : ℕ → Codes) (float : Codes → Option ℕ) (printed : (x : ℕ) → IsPrinted (print x))
    (reads : (x : ℕ) → float (print x) ≡ some x) where
  points-joined :
      (p : ℕ × ℕ) (ps : List (ℕ × ℕ))
      → points float (split_commas (joined print (p ∷ ps))) ≡ some (p ∷ ps)
  unfolding joined
  points-joined p [] =
      points-last float (print p.0) (print p.1) p.0 p.1 (printed p.0) (printed p.1) (reads p.0)
        (reads p.1)
  points-joined p (q ∷ ps) =
      points-more float (print p.0) (print p.1) p.0 p.1 (printed p.0) (printed p.1) (reads p.0)
        (reads p.1) (joined print (q ∷ ps)) (q ∷ ps) (points-joined q ps)

  -- Where printed floats have no spaces and no commas, and are read back as they were, the text that the
  -- ingestion writes for a line with a point is read back by the store as the points of the line.
  pub linestring_coordinates-linestring_wkt :
      (p : ℕ × ℕ) (ps : List (ℕ × ℕ))
      → linestring_coordinates float (linestring_wkt print (p ∷ ps)) ≡ some (p ∷ ps)
  unfolding linestring_wkt
  linestring_coordinates-linestring_wkt p ps =
      linestring_coordinates-body float (joined print (p ∷ ps)) ∙ points-joined p ps
