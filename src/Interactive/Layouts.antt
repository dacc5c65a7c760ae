-- ===== src/Interactive/Layouts.antt =====
-- The two layouts of a results directory, and what the loaders read from each
-- (scripts/generate_interactive_graphs.py). A directory is given as its entries, and a file as its
-- lines; a directory that is named like a results file is outside the model.
pub mod Detected
use resp_bench.Prelude.{
  ℕ, Bool, true, false, ◌&&◌, ◌||◌, not, Option, none, some, List, [], ◌∷◌, ◌++◌, String,
  if◌then◌else◌,
}
use resp_bench.Prelude.Int.{ℤ, pos, ltb_ℤ, eqb_ℤ}
use resp_bench.Prelude.Dict.{Dict}
use resp_bench.Prelude.Dict
use resp_bench.Prelude.Paths.{starts_with, stem}
use resp_bench.Prelude.Glob.{fnmatch}
use resp_bench.Prelude.Results.{ill_typed, Result, ok, err, ◌>>=◌}
use resp_bench.Floats.{Floats}
use resp_bench.Json.{Json, Fields, int, null, get, get_dict_or_empty}
use resp_bench.Graphs.{Line}
use resp_bench.Interactive.Numbers.{sorted}
use resp_bench.Interactive.Keyed.{append_to}
use resp_bench.Interactive.Records.{parse_client_count, load_steady_records}
use resp_bench.Interactive.Points.{Place, fold_result}

pub data Entry (F : Type 0) : Type 0 where
  file : List (Line F) → Entry F
  dir : Dict (List (Line F)) → Entry F

-- A results file, the number of clients of its directory, and the other files there.
pub record Visit (F : Type 0) : Type 0 where
  pub place : String × ℤ
  pub lines : List (Line F)
  pub siblings : Dict (List (Line F))

abbrev is_system : String → Bool
is_system name = fnmatch name "*.system.ndjson"

abbrev pub is_results : String → Bool
is_results name = fnmatch name "*.ndjson" && not (is_system name)

pub data Layout : Type 0 where
  legacy flat : Layout

abbrev Grouped : Type 0 → Type 0
Grouped F = List (ℤ × List (Fields F))

module _ {F : Type 0} where
  abbrev add_visit :
      ℤ → Dict (List (Line F)) → String → List (Line F) → List (Visit F) → List (Visit F)
  add_visit count siblings name lines later =
      if is_results name
      then record { place = (stem name, count); lines = lines; siblings = siblings } ∷ later
      else later

  abbrev visits_in : ℤ → Dict (List (Line F)) → Dict (List (Line F)) → List (Visit F)
  visits_in count siblings [] = []
  visits_in count siblings ((name, lines) ∷ files) =
      add_visit count siblings name lines (visits_in count siblings files)

  abbrev pub visits_of : Option ℕ → Entry F → List (Visit F)
  visits_of (some count) (dir files) = visits_in (pos count) files (Dict.sorted_items files)
  visits_of _ _ = []

  abbrev pub visits_from : Dict (Entry F) → List (Visit F)
  visits_from [] = []
  visits_from ((name, entry) ∷ entries) =
      visits_of (parse_client_count name) entry ++ visits_from entries

  -- The results files of the legacy layout, in the order in which the loops come to them.
  unfoldable pub legacy_visits : Dict (Entry F) → List (Visit F)
  unfolding parse_client_count fnmatch stem Dict.sorted_items
  legacy_visits results_dir = visits_from (Dict.sorted_items results_dir)

  abbrev pub files_of : Dict (Entry F) → Dict (List (Line F))
  files_of [] = []
  files_of ((name, file lines) ∷ entries) = (name, lines) ∷ files_of entries
  files_of ((name, dir files) ∷ entries) = files_of entries

  abbrev add_flat : String → List (Line F) → Dict (List (Line F)) → Dict (List (Line F))
  add_flat name lines later =
      if is_results name && not (starts_with name "_") then (stem name, lines) ∷ later else later

  abbrev pub flat_from : Dict (List (Line F)) → Dict (List (Line F))
  flat_from [] = []
  flat_from ((name, lines) ∷ files) = add_flat name lines (flat_from files)

  -- The results files of the flat layout, each under the label of its series.
  unfoldable pub flat_files : Dict (Entry F) → Dict (List (Line F))
  unfolding fnmatch stem Dict.sorted_items
  flat_files results_dir = flat_from (Dict.sorted_items (files_of results_dir))

  abbrev pub is_client_dir : String → Entry F → Bool
  is_client_dir name (file lines) = false
  is_client_dir name (dir files) = elim (parse_client_count name) [
    | none ↦ false
    | some count ↦ true
  ]

  abbrev pub is_flat_file : String → Entry F → Bool
  is_flat_file name (file lines) = is_results name && not (starts_with name "_")
  is_flat_file name (dir files) = false

  abbrev pub some_entry : (String → Entry F → Bool) → Dict (Entry F) → Bool
  some_entry test [] = false
  some_entry test ((name, entry) ∷ entries) = test name entry || some_entry test entries

  unfoldable pub detect_layout : Dict (Entry F) → Layout
  unfolding parse_client_count fnmatch
  detect_layout results_dir =
      if some_entry is_client_dir results_dir
      then legacy
      else if some_entry is_flat_file results_dir
      then flat
      else legacy

  abbrev need_int : Json F → Result ℤ
  need_int (int n) = ok n
  need_int _ = err ill_typed

  abbrev join_group : Option (Json F) → Fields F → Grouped F → Result (Grouped F)
  join_group none row groups = ok groups
  join_group (some null) row groups = ok groups
  join_group (some v) row groups =
      need_int v >>= λ connections. ok (append_to eqb_ℤ groups connections row)

  abbrev group_from : Grouped F → List (Fields F) → Result (Grouped F)
  group_from groups [] = ok groups
  group_from groups (row ∷ rows) = get_dict_or_empty row "phase" >>= λ phase.
      join_group (get phase "connections") row groups >>= λ after. group_from after rows

  abbrev fewer : ℤ × List (Fields F) → ℤ × List (Fields F) → Bool
  fewer (m, xs) (n, ys) = ltb_ℤ m n

  -- `sorted(by_connections.items())`, whose keys differ
  unfoldable pub by_connections : List (Fields F) → Result (List (ℤ × List (Fields F)))
  unfolding get get_dict_or_empty append_to sorted
  by_connections records = group_from [] records >>= λ groups. ok (sorted fewer groups)

module _ (fl : Floats) where
  abbrev Step : Type 0 → Type 0
  Step S = S → Place → List (Fields fl.Float) → Result S

  abbrev pub legacy_step : {S : Type 0} → Step S → S → Visit fl.Float → Result S
  legacy_step step s visit = load_steady_records visit.lines >>= λ records. elim records [
    | [] ↦ ok s
    | ◌∷◌ r rs ↦ step s visit.place (r ∷ rs)
  ]

  abbrev pub group_step : {S : Type 0} → Step S → String → S → ℤ × List (Fields fl.Float) → Result S
  group_step step label s (count, records) = step s (label, count) records

  abbrev pub flat_step : {S : Type 0} → Step S → S → String × List (Line fl.Float) → Result S
  flat_step step s (label, lines) =
      load_steady_records lines >>= by_connections >>= fold_result (group_step step label) s
