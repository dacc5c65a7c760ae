-- ===== src/Matrix/Cell.antt =====
-- One cell of a sweep: the body of the loops of `run_matrix`. What the processes and the clock do
-- in it is given with each cell.
use resp_bench.Prelude.{
  ℕ, Bool, true, false, leb, Option, none, some, List, [], ◌∷◌, ◌++◌, String, str_eq, if◌then◌else◌,
}
use resp_bench.Prelude.Int.{ℤ, pos, eqb_ℤ}
use resp_bench.Prelude.Dict.{Dict, put, update}
use resp_bench.Prelude.Dict
use resp_bench.Prelude.Texts.{concat, strip, member}
use resp_bench.Prelude.Results.{Exc, ill_typed, Result, ok, err, ◌>>=◌}
use resp_bench.Json.{Json, int, text, obj, entries}
use resp_bench.Matrix.{
  dim_connections, dim_env, driver_config_dims, Host, document, str_of, detect_engine_for_driver,
}
use resp_bench.Matrix.Dimensions.{resolve_binding}
use resp_bench.Matrix.Series.{Combo}
use resp_bench.Matrix.Results.{Files, ndjson_size, count_ndjson_lines}
use resp_bench.Matrix.Manifest.{Cell}
use resp_bench.Matrix.Generate.{generate_workload, generate_driver_config}

-- An exception that fails one cell: a SubprocessError, an OSError or a CellFailure.
pub record Failure : Type 0 where
  pub type_name : String
  pub message : String
  pub stderr : Option String

-- The guarded part of a cell: such an exception, another one that ends the sweep, or neither.
pub data Attempt (V : Type 0) : Type 0 where
  caught : Failure → Attempt V
  escaped : Exc → Attempt V
  finished : V → Attempt V

unfoldable pub describe_exception : Failure → String
unfolding strip
describe_exception exc =
    let detail = concat (exc.type_name ∷ ": " ∷ exc.message ∷ []) in
    elim exc.stderr [
      | none ↦ detail
      | some s ↦
          let said = strip s in
          if str_eq said "" then detail else concat (detail ∷ " — " ∷ said ∷ [])
    ]

-- `engine` is the run of the `make` command with its environment, from its start to its exit code; it
-- appends to the files of the run directory. `failed_text` is the text of a CalledProcessError.
pub record CellWorld (F : Type 0) : Type 0 where
  pub tmpdir : String
  pub write_configs : Json F → Json F → Result (Unit {0})
  pub flush : Attempt Unit
  pub engine : List String → Dict String → Files → Attempt ℤ × Files
  pub failed_text : List String → ℤ → String
  pub started_at : Json F
  pub duration_seconds : Json F

pub record Slot (F : Type 0) : Type 0 where
  pub iteration : ℕ
  pub x_value : Json F
  pub combo : Combo F

-- What the guarded part leaves: the records that were counted, how it ended, and the files.
abbrev pub Guarded : Type 0
Guarded = Option ℕ × (Attempt Unit × Files)

abbrev no_record : String → Failure
no_record metrics_output = record {
  type_name = "CellFailure";
  message = concat ("engine exited 0 but wrote no metrics record to " ∷ metrics_output ∷ []);
  stderr = none;
}

abbrev pub counted : String → ℕ → Files → Guarded
counted metrics_output n files =
    (some n, (if leb n 0 then caught (no_record metrics_output) else finished tt, files))

abbrev pub exited : (ℤ → String) → String → String → ℕ → Attempt ℤ × Files → Guarded
exited failed_text path name offset (caught e, files) = (none, (caught e, files))
exited failed_text path name offset (escaped e, files) = (none, (escaped e, files))
exited failed_text path name offset (finished code, files) =
    if eqb_ℤ code (pos 0) then counted path (count_ndjson_lines files name offset) files else (
      none,
      (
        caught
            record { type_name = "CalledProcessError"; message = failed_text code; stderr = none },
        files,
      ),
    )

abbrev pub flushed : Bool → Attempt Unit → Files → (Files → Guarded) → Guarded
flushed false flush files next = next files
flushed true (caught e) files next = (none, (caught e, files))
flushed true (escaped e) files next = (none, (escaped e, files))
flushed true (finished u) files next = next files

abbrev bench_cmd : String → String → String → String → String → List String
bench_cmd engine server tmpdir stem metrics_output =
    "make"
    ∷ concat (engine ∷ "-run" ∷ [])
    ∷ concat ("SERVER=" ∷ server ∷ [])
    ∷ concat ("DRIVER=" ∷ tmpdir ∷ "/driver_" ∷ stem ∷ ".json" ∷ [])
    ∷ concat ("WORKLOAD=" ∷ tmpdir ∷ "/workload_" ∷ stem ∷ ".json" ∷ [])
    ∷ concat ("METRICS_OUTPUT=" ∷ metrics_output ∷ [])
    ∷ []

pub record RunState (F : Type 0) : Type 0 where
  pub cells : List (Cell F)
  pub files : Files

-- What stays the same for all cells.
pub record Sweep (F : Type 0) : Type 0 where
  pub x_axis : String
  pub server : String
  pub workload_template : Json F
  pub results_dir : String
  pub needs_flush : String → Bool

-- The status and the error of a cell.
abbrev pub status_of : Attempt (Unit {0}) → String
status_of (caught e) = "failed"
status_of _ = "ok"

abbrev error_of : Attempt (Unit {0}) → Option String
error_of (caught e) = some (describe_exception e)
error_of _ = none

abbrev pub raised_by : Attempt (Unit {0}) → Result (Unit {0})
raised_by (escaped e) = err e
raised_by _ = ok tt

module _ {F : Type 0} where
  -- The loop over the bindings, on `resolved` and `params`.
  unfoldable pub resolve_bindings :
      Dict String → Dict (Json F) → Dict (Json F) → Result (Dict (Json F) × Dict (Json F))
  unfolding resolve_binding put
  resolve_bindings [] resolved params = ok (resolved, params)
  resolve_bindings ((name, binding) ∷ bindings) resolved params =
      resolve_binding (text binding) resolved >>= λ v.
      resolve_bindings bindings (put resolved name v) (put params name v)

  abbrev connections_for : String → Json F → Dict (Json F) → Json F
  connections_for x_axis x_val resolved =
      if str_eq x_axis dim_connections
      then x_val
      else elim (Dict.get resolved dim_connections) [ none ↦ int (pos 1) | some v ↦ v ]

  abbrev pub driver_overrides : Dict (Json F) → Dict (Json F)
  driver_overrides [] = []
  driver_overrides ((name, v) ∷ resolved) =
      let rest = driver_overrides resolved in
      if member name driver_config_dims then (name, v) ∷ rest else rest

  abbrev env_entries : Option (Json F) → Dict (Json F)
  env_entries (some (obj env)) = entries env
  env_entries _ = []

  -- The environment of a dict under `env`: the one of `resolved` unless it is empty.
  abbrev env_overrides : Dict (Json F) → Dict (Json F) → Dict (Json F)
  env_overrides resolved params = elim (env_entries (Dict.get resolved dim_env)) [
    | [] ↦ env_entries (Dict.get params dim_env)
    | e ∷ es ↦ e ∷ es
  ]

  abbrev env_texts : Host F → Dict (Json F) → Dict String
  env_texts host [] = []
  env_texts host ((k, v) ∷ env) = (k, str_of host v) ∷ env_texts host env

  -- The `finally` clause appends the cell however its guarded part ended.
  unfoldable pub close_cell :
      Slot F → String → CellWorld F → RunState F → Guarded → Result (Unit {0}) × RunState F
  unfolding describe_exception
  close_cell slot engine world st (records, (ended, files)) = (
    raised_by ended,
    record {
      cells =
          st.cells
          ++ (record {
            iteration = slot.iteration;
            x_value = slot.x_value;
            label = slot.combo.label;
            engine = engine;
            metrics_output = concat (slot.combo.label ∷ ".ndjson" ∷ []);
            status = status_of ended;
            records_written = records;
            error = error_of ended;
            started_at = world.started_at;
            duration_seconds = world.duration_seconds;
          }
              ∷ []);
      files = files;
    },
  )

  abbrev template_path : Json F → Result String
  template_path (text s) = ok s
  template_path v = err ill_typed

  -- What is made before the guarded part: the engine, its environment and its command.
  unfoldable pub prepare_cell :
      Host F → Sweep F → Slot F → CellWorld F → Result (String × (Dict String × List String))
  unfolding resolve_bindings update Dict.get generate_workload generate_driver_config
      detect_engine_for_driver str_of
  prepare_cell host sweep slot world =
      let combo = slot.combo in
      resolve_bindings combo.bindings (update ((sweep.x_axis, slot.x_value) ∷ []) combo.params)
        combo.params
      >>= λ (resolved, params). template_path sweep.workload_template >>= λ template.
          generate_workload host template (connections_for sweep.x_axis slot.x_value resolved)
          >>= λ workload.
              generate_driver_config host combo.driver_config (driver_overrides resolved)
              >>= λ driver_config. world.write_configs workload driver_config >>= λ written.
                  detect_engine_for_driver (document driver_config) >>= λ engine. ok (
                    engine,
                    (
                      env_texts host (env_overrides resolved params),
                      bench_cmd engine sweep.server world.tmpdir
                          (concat (combo.label ∷ "_" ∷ str_of host slot.x_value ∷ []))
                          (concat (sweep.results_dir ∷ "/" ∷ combo.label ∷ ".ndjson" ∷ [])),
                    ),
                  )

  -- The `try` statement of a cell.
  unfoldable pub guarded_cell :
      Sweep F → Slot F → CellWorld F → Dict String → List String → Files → Guarded
  unfolding ndjson_size count_ndjson_lines
  guarded_cell sweep slot world env cmd files =
      let name = concat (slot.combo.label ∷ ".ndjson" ∷ []) in
      flushed (sweep.needs_flush slot.combo.driver_config) world.flush files (λ files'.
        exited (world.failed_text cmd) (concat (sweep.results_dir ∷ "/" ∷ name ∷ [])) name
          (ndjson_size files name) (world.engine cmd env files'))

  abbrev pub run_prepared :
      Sweep F
      → Slot F
      → CellWorld F
      → RunState F
      → Result (String × (Dict String × List String))
      → Result (Unit {0}) × RunState F
  run_prepared sweep slot world st (err e) = (err e, st)
  run_prepared sweep slot world st (ok (engine, (env, cmd))) =
      close_cell slot engine world st (guarded_cell sweep slot world env cmd st.files)

  unfoldable pub run_cell :
      Host F → Sweep F → Slot F → CellWorld F → RunState F → Result (Unit {0}) × RunState F
  unfolding prepare_cell guarded_cell close_cell
  run_cell host sweep slot world st =
      run_prepared sweep slot world st (prepare_cell host sweep slot world)
