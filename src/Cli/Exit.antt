-- ===== src/Cli/Exit.antt =====
-- What exit code 0 of the engine says of its phases.
use resp_bench.Prelude.{
  ℕ, ◌≡◌, refl, Bool, true, false, Bool-cases, inl, inr, Option, List, String, All, arith,
}
use resp_bench.Prelude.Results.{is_exception, Result, ok, err, ◌>>=◌, ◌>>◌, >>=-eq-ok, ok-injective}
use resp_bench.Floats.{Floats}
use resp_bench.Config.Phase.{PhaseConfig, WorkloadConfig, name}
use resp_bench.Config.Driver.{DriverConfig}
use resp_bench.Config.Loader.{parse_driver_config, parse_workload_config}
use resp_bench.Metrics.{Histograms}
use resp_bench.Metrics.Writer.{Times, NdjsonWriter}
use resp_bench.Engine.Phase.{World, EngineState}
use resp_bench.Engine.Phase.Status.{status, run_phases-completed}
use resp_bench.Engine.Setup.{
  SampleWorld, setup_metadata, in_worlds, after_name, run_with, run, new_engine,
}
use resp_bench.Cli.{
  Options, given, validate, parse_server, CliWorld, error_flag, run_benchmark, code_of, main,
}

module _ (fl : Floats) (hs : Histograms) (ts : Times) (Client : Type 0) where
  abbrev pub AllCompleted : List (World fl hs ts Client × PhaseConfig fl) → Type 0
  AllCompleted = All (λ wp. status fl hs ts Client wp.0 wp.1 ≡ "COMPLETED")

  error_flag-false :
      (r : Result (Unit {0}) × EngineState fl hs ts Client)
      → error_flag fl hs ts Client r ≡ ok false
      → (r.0 ≡ ok tt) × (r.1.had_error ≡ false)
  error_flag-false (ok u, st) h = (refl, ok-injective h)
  error_flag-false (err e, st) h = absurd (cc h)

  run_with-completed :
      (phases : List (World fl hs ts Client × PhaseConfig fl)) (st : EngineState fl hs ts Client)
      (w : Result (NdjsonWriter fl hs ts))
      → (run_with fl hs ts Client phases st w).0 ≡ ok tt
      → (run_with fl hs ts Client phases st w).1.had_error ≡ false
      → AllCompleted phases
  run_with-completed phases st (err e) p h = absurd (cc p)
  run_with-completed phases st (ok writer) p h =
      (run_phases-completed fl hs ts Client phases (record st { writer = writer }) p h).1

  run-completed :
      (sample : SampleWorld fl hs ts Client) (worlds : ℕ → World fl hs ts Client)
      (config : DriverConfig fl) (workload : WorkloadConfig fl) (commit_id : Option String)
      (st : EngineState fl hs ts Client)
      → (run fl hs ts Client sample worlds config workload commit_id st).0 ≡ ok tt
      → (run fl hs ts Client sample worlds config workload commit_id st).1.had_error ≡ false
      → AllCompleted (in_worlds fl hs ts Client worlds 0 workload.phases)
  unfolding run
  run-completed sample worlds config workload commit_id st p h =
      named (name fl workload) st
        (run_with fl hs ts Client phases st
          (setup_metadata fl hs ts Client sample config commit_id st.writer))
        p h
        (run_with-completed phases st
          (setup_metadata fl hs ts Client sample config commit_id st.writer))
    where
      phases : List (World fl hs ts Client × PhaseConfig fl)
      phases = in_worlds fl hs ts Client worlds 0 workload.phases

      named :
          (n : Result (Option String)) (st : EngineState fl hs ts Client)
          (later : Result (Unit {0}) × EngineState fl hs ts Client)
          → (after_name fl hs ts Client n st later).0 ≡ ok tt
          → (after_name fl hs ts Client n st later).1.had_error ≡ false
          → (later.0 ≡ ok tt → later.1.had_error ≡ false → AllCompleted phases)
          → AllCompleted phases
      named (ok n) st later p h k = k p h
      named (err e) st later p h k = absurd (cc p)

  code_of-zero : (r : Result Bool) → code_of fl hs ts Client r ≡ ok 0 → r ≡ ok false
  code_of-zero (ok true) h = absurd (omega (arith, ok-injective h))
  code_of-zero (ok false) h = refl
  code_of-zero (err e) h = absurd (elim (Bool-cases (is_exception e)) [
    | inl t ↦ omega (arith, ok-injective (rw (t, code_of) at h))
    | inr t ↦ cc (rw (t, code_of) at h)
  ])

  -- Exit code 0 of a benchmark means that the driver and workload files were loaded and that every phase
  -- of the workload ended with the status COMPLETED.
  pub main-AllCompleted :
      (world : CliWorld fl hs ts Client) (options : Options)
      → options.info ≡ false
      → main fl hs ts Client world options ≡ ok 0
      → (config : DriverConfig fl) × ((world.load (given options.driver) >>= parse_driver_config fl)
          ≡ ok config)
        × (workload : WorkloadConfig fl) × ((world.load (given options.workload)
              >>= parse_workload_config fl)
            ≡ ok workload)
        × AllCompleted (in_worlds fl hs ts Client world.worlds 0 workload.phases)
  unfolding main run_benchmark new_engine
  main-AllCompleted world options no_info h =
      let ended =
        code_of-zero (validate world.exists options >> run_benchmark fl hs ts Client world options)
          (rw (no_info, main) at h) in
      let (u, valid, h1) = >>=-eq-ok (validate world.exists options) _ ended in
      let (server, parsed, h2) = >>=-eq-ok (parse_server options.server) _ h1 in
      let (config, driver_read, h3) =
        >>=-eq-ok (world.load (given options.driver) >>= parse_driver_config fl) _ h2 in
      let (workload, workload_read, h4) =
        >>=-eq-ok (world.load (given options.workload) >>= parse_workload_config fl) _ h3 in
      let (passed, fine) = error_flag-false _ h4 in
      (
        config,
        driver_read,
        workload,
        workload_read,
        run-completed world.sample world.worlds config workload options.commit_id
            (new_engine fl hs ts Client (given options.metrics)) passed fine,
      )
