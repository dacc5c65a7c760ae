-- ===== src/Interactive/Traces/Deltas.antt =====
-- The traces of the differences from a reference, and the throughput for each share of CPU use
-- (scripts/generate_interactive_graphs.py).
use resp_bench.Prelude.{Bool, Option, none, some, List, [], ◌∷◌, String, str_eq, if◌then◌else◌}
use resp_bench.Prelude.Int.{ℤ, pos, eqb_ℤ}
use resp_bench.Prelude.Dict.{Dict}
use resp_bench.Floats.{Floats}
use resp_bench.Interactive.Numbers.{Numeric, sorted}
use resp_bench.Interactive.Keyed.{find, assign}
use resp_bench.Interactive.Colors.{Palette, get_driver_color}
use resp_bench.Interactive.Points.{Point, Curves, fewer_clients}
use resp_bench.Interactive.Versions.{Version, get_driver_label}
use resp_bench.Interactive.Traces.{Trace, draw, drawing_order, points_of, keys}

module _ (fl : Floats) (num : Numeric fl) where
  abbrev lookup_from : List (ℤ × fl.Float) → List (Point fl) → List (ℤ × fl.Float)
  lookup_from found [] = found
  lookup_from found ((cc, v) ∷ points) = lookup_from (assign eqb_ℤ found cc v) points

  -- `{cc: v for cc, v in points}`
  abbrev lookup : List (Point fl) → List (ℤ × fl.Float)
  lookup points = lookup_from [] points

  abbrev is_positive : fl.Float → Bool
  is_positive x = num.ltb (fl.of_int (pos 0)) x

  abbrev delta_pct : fl.Float → fl.Float → fl.Float
  delta_pct reference other =
      num.round (num.mul (fl.div (num.sub reference other) other) (num.literal "100.0")) 2

  abbrev add_delta : ℤ → fl.Float → Option fl.Float → List (Point fl) → List (Point fl)
  add_delta cc other none later = later
  add_delta cc other (some reference) later =
      if is_positive other then (cc, delta_pct reference other) ∷ later else later

  abbrev deltas : List (ℤ × fl.Float) → List (Point fl) → List (Point fl)
  deltas reference [] = []
  deltas reference ((cc, other) ∷ points) =
      add_delta cc other (find eqb_ℤ reference cc) (deltas reference points)

  abbrev other_keys : String → List String → List String
  other_keys reference [] = []
  other_keys reference (driver ∷ drivers) =
      let rest = other_keys reference drivers in
      if str_eq driver reference then rest else driver ∷ rest

  abbrev draw_deltas :
      String → Curves fl → (String → String) → Palette → List (Point fl) → List (Trace fl) × Palette
  draw_deltas reference curves name p [] = ([], p)
  draw_deltas reference curves name p (q ∷ points) =
      draw fl (λ driver. deltas (lookup (q ∷ points)) (points_of fl curves driver)) name
        "Delta: %{y:+.1f}%" (drawing_order p (other_keys reference (keys curves))) p

  unfoldable build_delta_traces :
      String → Curves fl → Dict Version → Palette → List (Trace fl) × Palette
  unfolding drawing_order find assign get_driver_color get_driver_label
  build_delta_traces reference curves versions p =
      draw_deltas reference curves (λ driver. get_driver_label driver versions) p
        (points_of fl curves reference)

  unfoldable build_efficiency_delta_traces :
      String → Curves fl → Palette → List (Trace fl) × Palette
  unfolding drawing_order find assign get_driver_color
  build_efficiency_delta_traces reference eff_data p =
      draw_deltas reference eff_data (λ driver. driver) p (points_of fl eff_data reference)

  -- The counts that both have, each with the quotient where the CPU use is positive.
  abbrev add_quotient : ℤ → fl.Float → Option fl.Float → List (Point fl) → List (Point fl)
  add_quotient cc rps none later = later
  add_quotient cc rps (some cpu_pct) later =
      if is_positive cpu_pct then (cc, fl.div rps cpu_pct) ∷ later else later

  abbrev quotients : List (ℤ × fl.Float) → List (ℤ × fl.Float) → List (Point fl)
  quotients cpu_map [] = []
  quotients cpu_map ((cc, rps) ∷ rps_map) =
      add_quotient cc rps (find eqb_ℤ cpu_map cc) (quotients cpu_map rps_map)

  abbrev add_curve : String → List (Point fl) → Curves fl → Curves fl
  add_curve driver [] later = later
  add_curve driver (q ∷ points) later = (driver, q ∷ points) ∷ later

  -- The counts go up, as `sorted(set(rps_map) & set(cpu_map))` does.
  unfoldable build_efficiency_data : Curves fl → Curves fl → Curves fl
  unfolding find assign sorted
  build_efficiency_data [] cpu_data = []
  build_efficiency_data ((driver, points) ∷ rps_data) cpu_data =
      add_curve driver
        (quotients (lookup (points_of fl cpu_data driver))
          (sorted (fewer_clients fl) (lookup points)))
        (build_efficiency_data rps_data cpu_data)
