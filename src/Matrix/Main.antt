-- ===== src/Matrix/Main.antt =====
-- `run_matrix` as a whole, and the exit code of `main`.
pub mod Exits
pub mod Refused
pub mod Outcomes
use resp_bench.Prelude.{
  ℕ, zero, suc, ◌*◌, Bool, true, false, leb, ltb, not, ◌==◌, Option, none, some, List, [], ◌∷◌,
  length, String, str_eq, if◌then◌else◌,
}
use resp_bench.Prelude.Int.{ℤ, pos, pos_part, eqb_ℤ}
use resp_bench.Prelude.Dict.{Dict, put, update}
use resp_bench.Prelude.Dict
use resp_bench.Prelude.Texts.{concat}
use resp_bench.Prelude.Results.{Exc, failure, Result, ok, err, ◌>>=◌, ◌>>◌}
use resp_bench.Floats.{Floats}
use resp_bench.Keys.{decimal}
use resp_bench.Json.{Json, text, int}
use resp_bench.Config.Driver.{truthy}
use resp_bench.Matrix.{Host, str_of, Outcome, refused, raised, done}
use resp_bench.Matrix.Dimensions.{DimensionSpec, resolve_binding}
use resp_bench.Matrix.Parse.{MatrixConfig, parse_matrix_config}
use resp_bench.Matrix.Series.{Combo, generate_series_combos}
use resp_bench.Matrix.Server.{Server, server_text}
use resp_bench.Matrix.Server.Preflight.{driver_server_settings}
use resp_bench.Matrix.Results.{Directory, prepare_results_dir, validate_run_id}
use resp_bench.Matrix.Manifest.{Summary}
use resp_bench.Matrix.Cell.{resolve_bindings}
use resp_bench.Matrix.Run.{
  schedule, run_cells, World, After, total_cells, stopped, started, preflighted, checked_server,
}

module _ (fl : Floats) (host : Host fl.Float) where
  abbrev no_cells : MatrixConfig fl → ℕ → ℕ → String
  no_cells config xs series = concat (
      "matrix produced no benchmark cells ("
      ∷ config.x_axis
      ∷ "="
      ∷ decimal xs
      ∷ " value(s) × "
      ∷ decimal series
      ∷ " series × "
      ∷ str_of host (int config.iterations)
      ∷ " iteration(s))"
      ∷ [])

  abbrev pub prepared :
      World fl host
      → MatrixConfig fl
      → List (Combo fl.Float)
      → Server
      → String
      → List (Json fl.Float)
      → String
      → Bool
      → Outcome Unit × Directory
      → After fl host
  prepared world config combos server output_dir xs run_id resume (refused message, directory) =
      stopped fl host world config combos (refused message) directory
  prepared world config combos server output_dir xs run_id resume (raised e, directory) =
      stopped fl host world config combos (raised e) directory
  prepared world config combos server output_dir xs run_id resume (done u, directory) =
      preflighted fl host world config combos server (concat (output_dir ∷ "/" ∷ run_id ∷ [])) xs
        run_id resume directory (checked_server fl host world config combos server)

  -- `run_id or default_run_id()`
  abbrev pub run_id_or : World fl host → Option String → String
  run_id_or world none = world.default_run_id
  run_id_or world (some id) = if str_eq id "" then world.default_run_id else id

  abbrev pub with_combos :
      World fl host
      → MatrixConfig fl
      → Server
      → String
      → List (Json fl.Float)
      → String
      → Bool
      → Bool
      → Result (List (Combo fl.Float))
      → After fl host
  with_combos world config server output_dir xs run_id resume overwrite (err e) =
      stopped fl host world config [] (raised e) world.directory
  with_combos world config server output_dir xs run_id resume overwrite (ok combos) =
      if total_cells fl host config xs combos == 0
      then stopped fl host world config combos
          (refused (no_cells config (length xs) (length combos))) world.directory
      else prepared world config combos server output_dir xs run_id resume
          (prepare_results_dir world.repr output_dir run_id resume overwrite world.directory)

  unfoldable pub run_matrix :
      World fl host
      → MatrixConfig fl
      → String
      → Server
      → Option String
      → Bool
      → Bool
      → After fl host
  unfolding generate_series_combos prepare_results_dir run_cells schedule Dict.get
  run_matrix world config output_dir server run_id resume overwrite =
      elim (Dict.get config.dimensions config.x_axis) [
        | none ↦ stopped fl host world config [] (raised (failure config.x_axis)) world.directory
        | some axis ↦
            with_combos world config server output_dir axis.values (run_id_or world run_id) resume
              overwrite (generate_series_combos fl host config)
      ]

  pub record Args : Type 0 where
    pub matrix : String
    pub output_dir : String
    pub run_id : Option String
    pub resume : Bool
    pub overwrite : Bool
    pub server_host : Option String
    pub port : Option ℤ
    pub iterations : Option ℤ
    pub dry_run : Bool

  -- How the process ends: with an exit code, or with the traceback of an exception.
  pub data Ending : Type 0 where
    exit_code : ℕ → Ending
    traceback : Exc → Ending

  abbrev pub exit_ok : ℕ
  exit_ok = 0

  abbrev pub exit_cell_failures : ℕ
  exit_cell_failures = 1

  abbrev pub exit_preflight : ℕ
  exit_preflight = 2

  abbrev pub ending_of : Outcome Summary → Ending
  ending_of (refused message) = exit_code exit_preflight
  ending_of (raised e) = traceback e
  ending_of (done summary) =
      exit_code (if ltb 0 summary.failed then exit_cell_failures else exit_ok)

  -- `args.iterations or config["iterations"]`
  abbrev overriding : Option ℤ → MatrixConfig fl → MatrixConfig fl
  overriding none config = config
  overriding (some n) config = if eqb_ℤ n (pos 0) then config else record config { iterations = n }

  abbrev host_text : Args → MatrixConfig fl → String
  host_text args config =
      let from_config =
        if truthy fl config.server_host then str_of host config.server_host else "localhost" in
      elim args.server_host [ none ↦ from_config | some h ↦ if str_eq h "" then from_config else h ]

  abbrev port_text : Args → MatrixConfig fl → String
  port_text args config = elim args.port [
    | none ↦ str_of host config.port
    | some n ↦ str_of host (if eqb_ℤ n (pos 0) then config.port else int n)
  ]

  -- The resolutions that a dry run shows for the series with bindings.
  abbrev dry_resolutions : String → List (Json fl.Float) → Combo fl.Float → Result (Unit {0})
  dry_resolutions x_axis [] combo = ok tt
  dry_resolutions x_axis (x ∷ xs) combo =
      resolve_bindings combo.bindings (update ((x_axis, x) ∷ []) combo.params) [] >>= λ shown.
      dry_resolutions x_axis xs combo

  abbrev dry_series : String → List (Json fl.Float) → List (Combo fl.Float) → Result (Unit {0})
  dry_series x_axis xs [] = ok tt
  dry_series x_axis xs (combo ∷ combos) =
      dry_resolutions x_axis xs combo >> dry_series x_axis xs combos

  abbrev axis_values : MatrixConfig fl → Result (List (Json fl.Float))
  axis_values config = elim (Dict.get config.dimensions config.x_axis) [
    | none ↦ err (failure config.x_axis)
    | some axis ↦ ok axis.values
  ]

  -- What a dry run may raise: it prints, and changes nothing.
  unfoldable pub dry_run : MatrixConfig fl → Result (Unit {0})
  unfolding generate_series_combos driver_server_settings resolve_bindings update Dict.get
  dry_run config = generate_series_combos fl host config >>= λ combos. axis_values config >>= λ xs.
      driver_server_settings fl host combos >>= λ settings. dry_series config.x_axis xs combos

  abbrev pub main_with : World fl host → Args → Result (MatrixConfig fl) → Ending × Directory
  main_with world args (err e) = (traceback e, world.directory)
  main_with world args (ok read) =
      let config = overriding args.iterations read in
      let after =
        run_matrix world config args.output_dir
          (record { server_host = host_text args config; port = port_text args config }) args.run_id
          args.resume args.overwrite in
      if args.dry_run
      then (
        elim (dry_run config) [ ok u ↦ exit_code exit_ok | err e ↦ traceback e ],
        world.directory,
      )
      else (ending_of after.answer, after.directory)

  -- argparse ends with its usage error, which is code 2 as well, for a bad `--run-id`.
  abbrev pub with_args :
      World fl host → Option String → (Unit {0} → Ending × Directory) → Ending × Directory
  with_args world none next = next tt
  with_args world (some run_id) next = elim (validate_run_id world.repr run_id) [
    | ok id ↦ next tt
    | err e ↦ (exit_code 2, world.directory)
  ]

  -- How the process ends, and the run directory that it leaves.
  unfoldable pub main : World fl host → Json fl.Float → Args → Ending × Directory
  unfolding parse_matrix_config run_matrix dry_run str_of validate_run_id
  main world interval args =
      with_args world args.run_id
        (λ u. main_with world args (parse_matrix_config fl host interval args.matrix))
