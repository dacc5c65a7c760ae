-- ===== src/Interactive/Traces/Seen.antt =====
-- The traces of a chart, and the drivers that they belong to.
use resp_bench.Prelude.{
  ◌≡◌, refl, sym, ap, Bool, true, false, Bool-cases, inl, inr, List, [], ◌∷◌, map, String, str_eq,
  eq_iff, if◌then◌else◌, arith,
}
use resp_bench.Prelude.Dict.{Dict}
use resp_bench.Floats.{Floats}
use resp_bench.Interactive.Colors.{Palette}
use resp_bench.Interactive.Points.{Point, Curves}
use resp_bench.Interactive.Versions.{Version, get_driver_label}
use resp_bench.Interactive.Traces.{
  Drawn, Trace, keys, drawing_order, points_of, draw, build_family_grouped_traces,
  build_scalability_traces,
}
use resp_bench.Interactive.Traces.Families.{times_drawn}

module _ (fl : Floats) where
  -- The family, the name and the points of a trace.
  abbrev pub seen : Trace fl → String × (String × List (Point fl))
  seen t = (t.legendgroup, (t.name, t.points))

  abbrev pub expected : Curves fl → Dict Version → Drawn → String × (String × List (Point fl))
  expected curves versions d =
      (d.family, (get_driver_label d.driver versions, points_of fl curves d.driver))

  abbrev has_any : List (Point fl) → Bool
  has_any [] = false
  has_any (q ∷ points) = true

  abbrev pub has_points : Curves fl → String → Bool
  has_points curves driver = has_any (points_of fl curves driver)

  -- The drivers that have points.
  abbrev pub pointed : Curves fl → List Drawn → List Drawn
  pointed curves [] = []
  pointed curves (d ∷ ds) =
      let rest = pointed curves ds in if has_points curves d.driver then d ∷ rest else rest

  draw-seen :
      (curves : Curves fl) (versions : Dict Version) (line : String) (ds : List Drawn) (p : Palette)
      → map seen
          (draw fl (points_of fl curves) (λ driver. get_driver_label driver versions) line ds p).0
        ≡ map (expected curves versions) (pointed curves ds)
  draw-seen curves versions line [] p = refl
  draw-seen curves versions line (d ∷ ds) p =
      go (points_of fl curves d.driver) refl (λ after. draw-seen curves versions line ds after)
    where
      go :
          (found : List (Point fl))
          → points_of fl curves d.driver ≡ found
          → ((after : Palette)
              → map seen
                  (draw fl
                    (points_of fl curves)
                    (λ driver. get_driver_label driver versions)
                    line
                    ds
                    after).0
                ≡ map (expected curves versions) (pointed curves ds))
          → map seen
              (draw fl
                (points_of fl curves)
                (λ driver. get_driver_label driver versions)
                line
                (d ∷ ds)
                p).0
            ≡ map (expected curves versions) (pointed curves (d ∷ ds))
      go [] e later = rw e (later p)
      go (q ∷ points) e later =
          rw (e, later _)
            (ap
              (λ ps.
                (d.family, (get_driver_label d.driver versions, ps))
                ∷ map (expected curves versions) (pointed curves ds))
              (sym e))

  pub times_drawn-pointed :
      (curves : Curves fl) (x : String) (ds : List Drawn)
      → times_drawn x (pointed curves ds) ≡ (if has_points curves x then times_drawn x ds else 0)
  times_drawn-pointed curves x [] = ground arith
  times_drawn-pointed curves x (d ∷ ds) = elim (Bool-cases (str_eq d.driver x)) [
    | inl e ↦
        let q : d.driver ≡ x = ground (arith, eq_iff d.driver x) in
        let same = ap (has_points curves) q in
        ground (arith, same, e, times_drawn-pointed curves x ds)
    | inr e ↦ ground (arith, e, times_drawn-pointed curves x ds)
  ]

  -- The scalability chart has a trace for each driver that has points, in the order of the drawing.
  pub scalability-seen :
      (curves : Curves fl) (versions : Dict Version) (p : Palette)
      → map seen (build_scalability_traces fl curves versions p).0
        ≡ map (expected curves versions) (pointed curves (drawing_order p (keys curves)))
  unfolding build_scalability_traces build_family_grouped_traces
  scalability-seen curves versions p = draw-seen curves versions _ (drawing_order p (keys curves)) p
