-- ===== src/Matrix/Manifest.antt =====
-- The cells of a sweep, their summary, and the manifest of a run.
use resp_bench.Prelude.{
  ℕ, ◌-◌, Bool, true, not, Option, none, some, List, [], ◌∷◌, ◌++◌, map, length, String, str_eq,
  if◌then◌else◌,
}
use resp_bench.Prelude.Int.{pos}
use resp_bench.Prelude.Dict.{Dict, put}
use resp_bench.Prelude.Paths.{stem}
use resp_bench.Floats.{Floats}
use resp_bench.Json.{Json, bool, int, text, arr, object, items_of}
use resp_bench.Matrix.Parse.{MatrixConfig}
use resp_bench.Matrix.Series.{Combo}

-- The record of a cell. Its two times come from the clock.
pub record Cell (F : Type 0) : Type 0 where
  pub iteration : ℕ
  pub x_value : Json F
  pub label : String
  pub engine : String
  pub metrics_output : String
  pub status : String
  pub records_written : Option ℕ
  pub error : Option String
  pub started_at : Json F
  pub duration_seconds : Json F

pub record Summary : Type 0 where
  pub planned : ℕ
  pub attempted : ℕ
  pub succeeded : ℕ
  pub failed : ℕ

module _ {F : Type 0} where
  unfoldable pub failed_cells : List (Cell F) → List (Cell F)
  failed_cells [] = []
  failed_cells (c ∷ cells) =
      let rest = failed_cells cells in if not (str_eq c.status "ok") then c ∷ rest else rest

  unfoldable pub summarize_cells : List (Cell F) → ℕ → Summary
  unfolding failed_cells
  summarize_cells cells planned = record {
    planned = planned;
    attempted = length cells;
    succeeded = length cells - length (failed_cells cells);
    failed = length (failed_cells cells);
  }

  abbrev optional : String → Option (Json F) → List (String × Json F)
  optional k none = []
  optional k (some v) = (k, v) ∷ []

  abbrev number : ℕ → Json F
  number n = int (pos n)

  abbrev cell_json : Cell F → Json F
  cell_json c = object (
      ("iteration", number c.iteration)
      ∷ ("x_value", c.x_value)
      ∷ ("label", text c.label)
      ∷ ("engine", text c.engine)
      ∷ ("metrics_output", text c.metrics_output)
      ∷ ("started_at", c.started_at)
      ∷ ("status", text c.status)
      ∷ (optional "records_written"
            (elim c.records_written [ none ↦ none | some n ↦ some (number n) ])
          ++ optional "error" (elim c.error [ none ↦ none | some e ↦ some (text e) ])
          ++ (("duration_seconds", c.duration_seconds) ∷ [])))

  abbrev summary_json : Summary → Json F
  summary_json s = object (
      ("planned", number s.planned)
      ∷ ("attempted", number s.attempted)
      ∷ ("succeeded", number s.succeeded)
      ∷ ("failed", number s.failed)
      ∷ [])

  abbrev params_json : Dict (Json F) → Option (Json F)
  params_json [] = none
  params_json (p ∷ ps) = some (object (p ∷ ps))

  abbrev texts_json : Dict String → List (String × Json F)
  texts_json [] = []
  texts_json ((k, s) ∷ rest) = (k, text s) ∷ texts_json rest

  abbrev bindings_json : Dict String → Option (Json F)
  bindings_json [] = none
  bindings_json (b ∷ bs) = some (object (texts_json (b ∷ bs)))

  abbrev pub variant_info : Combo F → Json F
  variant_info combo = object (
      ("driver_config", text combo.driver_config)
      ∷ ("driver_name", text (stem combo.driver_config))
      ∷ (optional "params" (params_json combo.params)
          ++ optional "bindings" (bindings_json combo.bindings)))

  -- A later series of the same label takes the place of an earlier one.
  abbrev pub variants_from : Dict (Json F) → List (Combo F) → Dict (Json F)
  variants_from variants [] = variants
  variants_from variants (combo ∷ combos) =
      variants_from (put variants combo.label (variant_info combo)) combos

-- The document that `write_manifest` writes.
unfoldable pub manifest :
    (fl : Floats)
    → MatrixConfig fl
    → List (Combo fl.Float)
    → Option String
    → Option (List (Cell fl.Float))
    → Option Summary
    → Bool
    → Json fl.Float
unfolding put stem
manifest fl config combos run_id cells summary resumed = object (
    ("description", config.description)
    ∷ ("x_axis", text config.x_axis)
    ∷ ("iterations", int config.iterations)
    ∷ ("variants", object (variants_from [] combos))
    ∷ (optional "run_id" (elim run_id [ none ↦ none | some id ↦ some (text id) ])
        ++ optional "resumed" (if resumed then some (bool true) else none)
        ++ optional "summary" (elim summary [ none ↦ none | some s ↦ some (summary_json s) ])
        ++ optional "cells"
            (elim cells [ none ↦ none | some cs ↦ some (arr (items_of (map cell_json cs))) ])))
