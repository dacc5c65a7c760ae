-- ===== src/Interactive/Traces.antt =====
-- The traces of the charts (scripts/generate_interactive_graphs.py): what is drawn of each driver, by
-- families. A trace has the fields that differ between traces.
pub mod Families
pub mod Seen
mod Deltas
use resp_bench.Prelude.{
  Bool, true, false, not, ◌&&◌, Option, none, some, List, [], ◌∷◌, ◌++◌, String, str_eq, map,
  if◌then◌else◌,
}
use resp_bench.Prelude.Int.{ℤ, pos, eqb_ℤ, ltb_ℤ}
use resp_bench.Prelude.Dict.{Dict}
use resp_bench.Prelude.Dict
use resp_bench.Prelude.Texts.{concat, upper}
use resp_bench.Prelude.Paths.{replace}
use resp_bench.Floats.{Floats}
use resp_bench.Interactive.Numbers.{Numeric, sorted, sorted_texts}
use resp_bench.Interactive.Keyed.{find, assign, append_to}
use resp_bench.Interactive.Colors.{
  Palette, get_driver_color, get_driver_family, family_order, family_label_of,
}
use resp_bench.Interactive.Points.{Point, Curves, LatencyCurves, sort_curves, fewer_clients}
use resp_bench.Interactive.Versions.{Version, get_driver_label}

-- A driver, its family, and the label of the family.
pub record Drawn : Type 0 where
  pub driver : String
  pub family : String
  pub family_label : String

-- The drivers of a family, from the dict that a loop over `data` fills.
abbrev pub drivers_of : Palette → String → List String → List String
drivers_of p family [] = []
drivers_of p family (driver ∷ drivers) =
    let rest = drivers_of p family drivers in
    if str_eq (get_driver_family p driver) family then driver ∷ rest else rest

abbrev pub draw_family : String → String → List String → List Drawn
draw_family family family_label [] = []
draw_family family family_label (driver ∷ drivers) =
    record { driver = driver; family = family; family_label = family_label }
    ∷ draw_family family family_label drivers

abbrev pub draw_families : Palette → List String → List String → List Drawn
draw_families p drivers [] = []
draw_families p drivers (family ∷ families) =
    draw_family family (family_label_of family) (sorted_texts (drivers_of p family drivers))
    ++ draw_families p drivers families

-- The drivers in the order in which they are drawn.
unfoldable pub drawing_order : Palette → List String → List Drawn
unfolding get_driver_family family_label_of sorted_texts
drawing_order p drivers =
    draw_families p drivers family_order
    ++ draw_family "other" "Other" (sorted_texts (drivers_of p "other" drivers))

abbrev pub keys {ℓ} : {V : Type ℓ} → List (String × V) → List String
keys [] = []
keys ((k, v) ∷ d) = k ∷ keys d

-- The text that is shown for a point.
abbrev hover : String → String → String
hover label line =
    concat ("<b>" ∷ label ∷ "</b><br>Clients: %{x}<br>" ∷ line ∷ "<br><extra></extra>" ∷ [])

module _ (fl : Floats) where
  pub record Trace : Type 0 where
    pub points : List (Point fl)
    pub name : String
    pub legendgroup : String
    pub legendgrouptitle : String
    pub color : String
    pub hovertemplate : String

  -- `curves.get(driver, [])`
  abbrev pub points_of : Curves fl → String → List (Point fl)
  points_of curves driver = elim (find str_eq curves driver) [ none ↦ [] | some points ↦ points ]

  abbrev trace_of : Drawn → List (Point fl) → String → String → String → Trace
  trace_of d points name color line = record {
    points = points;
    name = name;
    legendgroup = d.family;
    legendgrouptitle = d.family_label;
    color = color;
    hovertemplate = hover name line;
  }

  abbrev add_trace :
      Drawn
      → List (Point fl)
      → String
      → String
      → String × Palette
      → (Palette → List Trace × Palette)
      → List Trace × Palette
  add_trace d points name line (color, after) later =
      let (traces, final) = later after in (trace_of d points name color line ∷ traces, final)

  -- A driver without points is passed over, and asks for no colour.
  abbrev with_points :
      Drawn
      → List (Point fl)
      → String
      → String
      → Palette
      → (Palette → List Trace × Palette)
      → List Trace × Palette
  with_points d [] name line p later = later p
  with_points d (q ∷ points) name line p later =
      add_trace d (q ∷ points) name line (get_driver_color p d.driver) later

  abbrev pub draw :
      (String → List (Point fl))
      → (String → String)
      → String
      → List Drawn
      → Palette
      → List Trace × Palette
  draw points name line [] p = ([], p)
  draw points name line (d ∷ ds) p =
      with_points d (points d.driver) (name d.driver) line p (draw points name line ds)

  unfoldable pub build_family_grouped_traces :
      Curves fl → Dict Version → String → String → Palette → List Trace × Palette
  unfolding drawing_order find get_driver_color get_driver_label
  build_family_grouped_traces curves versions value_label value_fmt p =
      draw (points_of curves) (λ driver. get_driver_label driver versions)
        (concat (value_label ∷ ": " ∷ value_fmt ∷ [])) (drawing_order p (keys curves)) p

  unfoldable pub build_scalability_traces :
      Curves fl → Dict Version → Palette → List Trace × Palette
  unfolding build_family_grouped_traces
  build_scalability_traces curves versions p =
      build_family_grouped_traces curves versions "RPS" "%{y:,.0f}" p

  unfoldable build_cpu_traces : Curves fl → String → Palette → List Trace × Palette
  unfolding drawing_order find get_driver_color
  build_cpu_traces cpu_data hover_fmt p =
      draw (points_of cpu_data) (λ driver. driver) hover_fmt (drawing_order p (keys cpu_data)) p

  module _ (num : Numeric fl) where
    abbrev add_driver : Bool → String → List (Point fl) → Curves fl → Curves fl
    add_driver false driver points per_driver = per_driver
    add_driver true driver points per_driver = assign str_eq per_driver driver points

    abbrev drivers_for :
        String
        → String
        → Curves fl
        → List ((String × (String × String)) × List (Point fl))
        → Curves fl
    drivers_for command percentile per_driver [] = per_driver
    drivers_for command percentile per_driver (((driver, (cmd, pct)), points) ∷ rest) =
        drivers_for command percentile
          (add_driver (str_eq cmd command && str_eq pct percentile) driver points per_driver) rest

    -- No driver has no traces.
    unfoldable build_latency_traces :
        LatencyCurves fl num → String → String → Dict Version → Palette → List Trace × Palette
    unfolding build_family_grouped_traces assign upper replace
    build_latency_traces latency_data command percentile versions p =
        build_family_grouped_traces (drivers_for command percentile [] latency_data) versions
          (concat (command ∷ " " ∷ replace (upper percentile) "P" "p" ∷ " Latency (µs)" ∷ []))
          "%{y:,.0f}" p
