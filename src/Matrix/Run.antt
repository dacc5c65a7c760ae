-- ===== src/Matrix/Run.antt =====
-- The sweep: `run_matrix` and `main`.
pub mod Cells
pub mod Interrupted
use resp_bench.Prelude.{
  ℕ, zero, suc, ◌+◌, ◌*◌, Bool, true, false, not, leb, ltb, ◌==◌, Option, none, some, List, [], ◌∷◌,
  ◌++◌, length, String, str_eq, if◌then◌else◌,
}
use resp_bench.Prelude.Int.{ℤ, pos, pos_part, eqb_ℤ}
use resp_bench.Prelude.Dict.{Dict, put}
use resp_bench.Prelude.Dict
use resp_bench.Prelude.Texts.{concat}
use resp_bench.Prelude.Results.{Exc, failure, Result, ok, err, ◌>>=◌}
use resp_bench.Floats.{Floats}
use resp_bench.Keys.{decimal}
use resp_bench.Json.{Json}
use resp_bench.Matrix.{Host, Outcome, refused, raised, done, outcome_of, onward}
use resp_bench.Matrix.Dimensions.{DimensionSpec}
use resp_bench.Matrix.Parse.{MatrixConfig}
use resp_bench.Matrix.Series.{Combo, generate_series_combos}
use resp_bench.Matrix.Server.{Server, server_text, Ping}
use resp_bench.Matrix.Server.Preflight.{
  Credentials, Settings, driver_server_settings, preflight_server, non_standalone_modes,
}
use resp_bench.Matrix.Results.{
  Files, Directory, files_of, prepare_results_dir, Link, update_latest_link,
}
use resp_bench.Matrix.Manifest.{Cell, Summary, summarize_cells, manifest}
use resp_bench.Matrix.Cell.{Slot, CellWorld, Sweep, RunState, run_cell}

module _ {F : Type 0} where
  abbrev slots_for : ℕ → Json F → List (Combo F) → List (Slot F)
  slots_for iteration x [] = []
  slots_for iteration x (combo ∷ combos) =
      record { iteration = iteration; x_value = x; combo = combo } ∷ slots_for iteration x combos

  abbrev slots_of_iteration : ℕ → List (Json F) → List (Combo F) → List (Slot F)
  slots_of_iteration iteration [] combos = []
  slots_of_iteration iteration (x ∷ xs) combos =
      slots_for iteration x combos ++ slots_of_iteration iteration xs combos

  -- The three nested loops, as the cells that they visit in turn.
  unfoldable pub schedule : ℕ → ℕ → List (Json F) → List (Combo F) → List (Slot F)
  schedule iteration zero xs combos = []
  schedule iteration (suc n) xs combos =
      slots_of_iteration iteration xs combos ++ schedule (iteration + 1) n xs combos

  abbrev pub then_cells :
      Result (Unit {0}) × RunState F
      → (RunState F → Result (Unit {0}) × RunState F)
      → Result (Unit {0}) × RunState F
  then_cells (err e, st) next = (err e, st)
  then_cells (ok u, st) next = next st

  -- The i-th cell of the run happens in `worlds i`.
  unfoldable pub run_cells :
      Host F
      → Sweep F
      → (ℕ → CellWorld F)
      → ℕ
      → List (Slot F)
      → RunState F
      → Result (Unit {0}) × RunState F
  unfolding run_cell
  run_cells host sweep worlds i [] st = (ok tt, st)
  run_cells host sweep worlds i (slot ∷ slots) st =
      then_cells (run_cell host sweep slot (worlds i) st)
        (run_cells host sweep worlds (suc i) slots)

module _ (fl : Floats) (host : Host fl.Float) where
  -- What the machine does in a run besides its cells. `write_manifest` is how writing the manifest ends,
  -- `json_text` the text that is written.
  pub record World : Type 0 where
    pub repr : String → String
    pub dumps : Credentials fl.Float → String
    pub json_text : Json fl.Float → String
    pub default_run_id : String
    pub cli : Option String
    pub project : String
    pub pings : List String → ℕ → Ping
    pub directory : Directory
    pub link : Link
    pub worlds : ℕ → CellWorld fl.Float
    pub write_first : Result (Unit {0})
    pub write_last : Result (Unit {0})

  -- The answer of a run and what it leaves: the run directory, the link, and the cells that it
  -- attempted.
  pub record After : Type 0 where
    pub answer : Outcome Summary
    pub directory : Directory
    pub link : Link
    pub cells : List (Cell fl.Float)

  abbrev readiness_attempts : ℤ
  readiness_attempts = pos 5

  abbrev manifest_name : String
  manifest_name = "_manifest.json"

  abbrev written : Result (Unit {0}) → World → Json fl.Float → Files → Files
  written (err e) world document files = files
  written (ok u) world document files = put files manifest_name (world.json_text document)

  abbrev pub total_cells : MatrixConfig fl → List (Json fl.Float) → List (Combo fl.Float) → ℕ
  total_cells config xs combos = length xs * length combos * pos_part config.iterations

  -- An exception of the manifest takes the place of one of the cells.
  abbrev pub concluded : Result (Unit {0}) → Result (Unit {0}) → Summary → Outcome Summary
  concluded (err e) cells_ended summary = raised e
  concluded (ok u) (err e) summary = raised e
  concluded (ok u) (ok v) summary = done summary

  module _ (world : World) (config : MatrixConfig fl) (combos : List (Combo fl.Float)) where
    abbrev pub finish_run : String → Bool → ℕ → Link → Result (Unit {0}) × RunState fl.Float → After
    finish_run run_id resume total link (ended, st) =
        let summary = summarize_cells st.cells total in
        record {
          answer = concluded world.write_last ended summary;
          directory = some (
              written world.write_last world
                (manifest fl config combos (some run_id) (some st.cells) (some summary) resume)
                st.files);
          link = link;
          cells = st.cells;
        }

    abbrev needs_flush : Settings fl host → Option String → String → Bool
    needs_flush settings none path = false
    needs_flush settings (some cli) path = elim (Dict.get settings path) [
      | none ↦ false
      | some none ↦ false
      | some (some credentials) ↦ true
    ]

    abbrev sweep_of : Server → String → Settings fl host → Option String → Sweep fl.Float
    sweep_of server results_dir settings cli = record {
      x_axis = config.x_axis;
      server = server_text server;
      workload_template = config.workload_template;
      results_dir = results_dir;
      needs_flush = needs_flush settings cli;
    }

    -- From the first manifest on.
    abbrev pub started :
        Sweep fl.Float
        → List (Json fl.Float)
        → String
        → Bool
        → Link
        → Files
        → Result (Unit {0})
        → After
    started sweep xs run_id resume link files (err e) = record {
      answer = raised e;
      directory = some files;
      link = link;
      cells = [];
    }
    started sweep xs run_id resume link files (ok u) =
        finish_run run_id resume (total_cells config xs combos) link (
          run_cells host sweep world.worlds 0 (schedule 1 (pos_part config.iterations) xs combos)
            record {
              cells = [];
              files =
                  written (ok tt) world (manifest fl config combos (some run_id) none none resume)
                    files;
            })

    -- A run that ends before its first cell.
    abbrev pub stopped : Outcome Summary → Directory → After
    stopped answer directory = record {
      answer = answer;
      directory = directory;
      link = world.link;
      cells = [];
    }

    abbrev pub preflighted :
        Server
        → String
        → List (Json fl.Float)
        → String
        → Bool
        → Directory
        → Outcome (Settings fl host × Option String)
        → After
    preflighted server results_dir xs run_id resume directory (refused message) =
        stopped (refused message) directory
    preflighted server results_dir xs run_id resume directory (raised e) =
        stopped (raised e) directory
    preflighted server results_dir xs run_id resume directory (done (settings, cli)) =
        started (sweep_of server results_dir settings cli) xs run_id resume
          (update_latest_link run_id world.link).1 (files_of directory) world.write_first

    -- The checks of the server, and the modes that the warnings name.
    abbrev pub checked_server : Server → Outcome (Settings fl host × Option String)
    checked_server server = onward (outcome_of (driver_server_settings fl host combos)) (λ settings.
        onward
          (preflight_server fl host world.dumps settings server world.cli world.project
            readiness_attempts world.pings)
          (λ cli.
            onward (outcome_of (non_standalone_modes fl host combos))
              (λ modes. done (settings, cli))))
