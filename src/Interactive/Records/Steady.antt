-- ===== src/Interactive/Records/Steady.antt =====
-- The rows that the interactive graphs average, and those of the comparison graphs.
use resp_bench.Prelude.{◌≡◌, ◌⊎◌, Bool, true, false, List, [], ◌∷◌, String, All}
use resp_bench.Prelude.Results.{Result, ok, err}
use resp_bench.Json.{Json, Fields, get, get_dict_or_empty}
use resp_bench.Graphs.{Line, is_completed, keep_row}
use resp_bench.Interactive.Records.{load_steady_records}

module _ {F : Type 0} where
  -- The comparison graphs' test of a row's status.
  abbrev completed_in : Result (Fields F) → Bool
  completed_in (err e) = false
  completed_in (ok phase) = is_completed (get phase "status")

  abbrev pub has_completed : Fields F → Bool
  has_completed row = completed_in (get_dict_or_empty row "phase")

  -- The completed rows, each with the name of its file.
  abbrev pub completed_rows : String → List (Fields F) → List (Fields F)
  completed_rows path [] = []
  completed_rows path (row ∷ rows) =
      keep_row path row (has_completed row) (completed_rows path rows)

  -- The row completed, or the warning about it finds metadata that are absent or a dict.
  abbrev pub IsNamed : Fields F → Type 0
  IsNamed row =
      (has_completed row ≡ true)
      ⊎ ((metadata : Fields F) × (get_dict_or_empty row "metadata" ≡ ok metadata))

  abbrev chosen : Bool → Fields F → Bool
  chosen true row = has_completed row
  chosen false row = false

  -- What the interactive graphs load from the lines, where the comparison graphs load `rows`.
  abbrev pub Loaded : String → List (Line F) → List (Fields F) → Type 0
  Loaded path lines rows =
      (all : List (Fields F)) × (load_steady_records lines ≡ ok all)
      × (All IsNamed all)
      × (rows ≡ completed_rows path all)
