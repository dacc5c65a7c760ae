-- ===== src/Interactive/Versions.antt =====
-- The versions of the drivers, as the metadata of their first STEADY row has them
-- (scripts/generate_interactive_graphs.py).
use resp_bench.Prelude.{
  true, false, Option, none, some, List, [], ◌∷◌, String, str_eq, if◌then◌else◌,
}
use resp_bench.Prelude.Dict.{Dict}
use resp_bench.Prelude.Dict
use resp_bench.Prelude.Texts.{concat}
use resp_bench.Prelude.Results.{Result, ok, ◌>>=◌}
use resp_bench.Json.{Fields, get_text, get_dict_or_empty, need_dict, get}
use resp_bench.Graphs.{Line, blank, broken, document}
use resp_bench.Interactive.Records.{is_steady}
use resp_bench.Interactive.Points.{fold_result}
use resp_bench.Interactive.Layouts.{Entry, legacy_visits, flat_files}

pub record Version : Type 0 where
  pub primary_version : Option String
  pub secondary_id : Option String
  pub secondary_version : Option String
  pub label : String

-- `if text:`
abbrev pub given : Option String → Option String
given none = none
given (some s) = if str_eq s "" then none else some s

abbrev pub version_label : String → String → Option String → Option String → String
version_label driver primary (some id) (some version) =
    concat (driver ∷ " (" ∷ primary ∷ " / " ∷ id ∷ " " ∷ version ∷ ")" ∷ [])
version_label driver primary _ _ = concat (driver ∷ " (" ∷ primary ∷ ")" ∷ [])

abbrev version_of : String → Option String → Option String → Option String → Option Version
version_of driver none secondary_id secondary_version = none
version_of driver (some primary) secondary_id secondary_version = some (record {
  primary_version = some primary;
  secondary_id = secondary_id;
  secondary_version = secondary_version;
  label = version_label driver primary (given secondary_id) (given secondary_version);
})

abbrev put_version : Dict Version → String → Option Version → Dict Version
put_version versions driver none = versions
put_version versions driver (some v) = Dict.put versions driver v

module _ {F : Type 0} where
  abbrev row_version : String → Fields F → Result (Option Version)
  row_version driver row = get_dict_or_empty row "metadata" >>= λ meta.
      get_text meta "primary_driver_version" >>= λ primary.
      get_text meta "secondary_driver_id" >>= λ id.
      get_text meta "secondary_driver_version" >>= λ version.
      ok (version_of driver (given primary) id version)

  -- The version in the first STEADY row of the lines.
  unfoldable find_version : String → List (Line F) → Result (Option Version)
  unfolding get get_text get_dict_or_empty
  find_version driver [] = ok none
  find_version driver (blank ∷ lines) = find_version driver lines
  find_version driver (broken ∷ lines) = find_version driver lines
  find_version driver (document value ∷ lines) = need_dict value >>= λ row.
      is_steady row >>= λ steady. elim steady [
        | true ↦ row_version driver row
        | false ↦ find_version driver lines
      ]

  abbrev add_version : Dict Version → String → List (Line F) → Result (Dict Version)
  add_version versions driver lines = elim (Dict.get versions driver) [
    | some v ↦ ok versions
    | none ↦ find_version driver lines >>= λ found. ok (put_version versions driver found)
  ]

  unfoldable pub extract_driver_versions : Dict (Entry F) → Result (Dict Version)
  unfolding legacy_visits find_version Dict.get Dict.put
  extract_driver_versions results_dir =
      fold_result (λ versions visit. add_version versions visit.place.0 visit.lines) []
        (legacy_visits results_dir)

  unfoldable pub extract_driver_versions_flat : Dict (Entry F) → Result (Dict Version)
  unfolding flat_files find_version Dict.get Dict.put
  extract_driver_versions_flat results_dir =
      fold_result (λ versions (label, lines). add_version versions label lines) []
        (flat_files results_dir)

-- `driver_versions` of None is as an empty dict.
unfoldable pub get_driver_label : String → Dict Version → String
unfolding Dict.get
get_driver_label driver driver_versions = elim (Dict.get driver_versions driver) [
  | none ↦ driver
  | some v ↦ v.label
]
