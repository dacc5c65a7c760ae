-- ===== src/Interactive/Assign.antt =====
-- The colours, dashes, families and labels of the series of a matrix
-- (scripts/generate_interactive_graphs.py, `assign_variant_colors`).
use Prim.Native.Nat.{max, min}
use resp_bench.Prelude.{
  ℕ, suc, ◌+◌, ◌-◌, ◌*◌, ◌%◌, Option, none, some, List, [], ◌∷◌, String, str_eq, length, get_elem?,
}
use resp_bench.Prelude.Int.{pos}
use resp_bench.Prelude.Dict.{Dict}
use resp_bench.Prelude.Dict
use resp_bench.Prelude.Results.{Result, ok, ◌>>=◌}
use resp_bench.Floats.{Floats}
use resp_bench.Json.{Json, Fields}
use resp_bench.Interactive.Numbers.{Numeric, sorted_texts}
use resp_bench.Interactive.Keyed.{append_to}
use resp_bench.Interactive.Colors.{
  Palette, get_driver_color, get_driver_family, hsl_to_hex, driver_base_colors, line_dashes,
}
use resp_bench.Interactive.Variants.{infer_driver_name, build_display_label}

-- The four dicts that are returned.
pub record Variants : Type 0 where
  pub colors : Dict String
  pub dashes : Dict String
  pub families : Dict String
  pub display_labels : Dict String

abbrev pub put_label : Variants → String → String → String → String → String → Variants
put_label vs label color dash family display = record {
  colors = Dict.put vs.colors label color;
  dashes = Dict.put vs.dashes label dash;
  families = Dict.put vs.families label family;
  display_labels = Dict.put vs.display_labels label display;
}

-- `LINE_DASHES[i % len(LINE_DASHES)]`, whose index is in range
abbrev dash_of : ℕ → String
dash_of i = elim (get_elem? line_dashes (i % 6)) [ none ↦ "" | some dash ↦ dash ]

abbrev pub base_hsl : String → ℕ × ℕ × ℕ
base_hsl driver_name = elim (Dict.get driver_base_colors driver_name) [
  | none ↦ (0, 0, 50)
  | some hsl ↦ hsl
]

-- The assignments that `main` makes in two loops.
unfoldable pub override : Palette → Variants → Palette
unfolding Dict.update
override p vs = record p {
  colors = Dict.update p.colors vs.colors;
  families = Dict.update p.families vs.families;
}

abbrev pub no_variants : Variants
no_variants = record { colors = []; dashes = []; families = []; display_labels = [] }

module _ (fl : Floats) (num : Numeric fl) (shown : Json fl.Float → String) where
  abbrev Manifest : Type 0
  Manifest = Option (Fields fl.Float)

  abbrev pub groups_from :
      Palette
      → Manifest
      → List (String × List String)
      → List String
      → Result (List (String × List String))
  groups_from p manifest groups [] = ok groups
  groups_from p manifest groups (label ∷ labels) = infer_driver_name p label manifest >>= λ name.
      groups_from p manifest (append_to str_eq groups name label) labels

  -- `l_min + (l_max - l_min) * i / (n - 1)`
  abbrev lightness : ℕ → ℕ → ℕ → fl.Float
  lightness l n i =
      let l_min = max 25 (l - 20) in
      let l_max = min 75 (l + 20) in
      fl.add (fl.of_int (pos l_min))
        (fl.div (fl.of_int (pos ((l_max - l_min) * i))) (fl.of_int (pos (n - 1))))

  abbrev pub shaded :
      Manifest → String → ℕ × ℕ × ℕ → ℕ → ℕ → Variants → List String → Result Variants
  shaded manifest family hsl n i vs [] = ok vs
  shaded manifest family (h, s, l) n i vs (label ∷ labels) =
      build_display_label shown label manifest >>= λ display.
      shaded manifest family (h, s, l) n (suc i)
        (put_label vs label (hsl_to_hex fl num h s (lightness l n i)) (dash_of i) family display)
        labels

  abbrev pub assign_group :
      Manifest → Palette × Variants → String → List String → Result (Palette × Variants)
  assign_group manifest (p, vs) name (label ∷ []) =
      build_display_label shown label manifest >>= λ display.
      let (color, after) = get_driver_color p name in
      ok (after, put_label vs label color "solid" (get_driver_family p name) display)
  assign_group manifest (p, vs) name labels =
      shaded manifest (get_driver_family p name) (base_hsl name) (length labels) 0 vs
        (sorted_texts labels)
      >>= λ after. ok (p, after)

  abbrev pub assign_groups :
      Manifest → Palette × Variants → List (String × List String) → Result (Palette × Variants)
  assign_groups manifest s [] = ok s
  assign_groups manifest s ((name, labels) ∷ groups) =
      assign_group manifest s name labels >>= λ after. assign_groups manifest after groups

  unfoldable pub assign_variant_colors :
      Palette → List String → Option (Fields fl.Float) → Result (Palette × Variants)
  unfolding infer_driver_name build_display_label get_driver_color get_driver_family hsl_to_hex
      append_to sorted_texts Dict.put Dict.get
  assign_variant_colors p series_labels manifest =
      groups_from p manifest [] series_labels >>= assign_groups manifest (p, no_variants)
