-- ===== src/Engine/Setup.antt =====
-- `BenchmarkEngine.run`: the metadata of the driver, and the phases.
use resp_bench.Prelude.{ℕ, suc, false, Option, none, some, List, [], ◌∷◌, String, if◌then◌else◌}
use resp_bench.Prelude.Int.{pos}
use resp_bench.Prelude.Dict.{Dict}
use resp_bench.Prelude.Results.{is_exception, Result, ok, err, ◌>>=◌}
use resp_bench.Floats.{Floats}
use resp_bench.Config.Driver.{DriverConfig, secondary_driver_id}
use resp_bench.Config.Phase.{PhaseConfig, WorkloadConfig, name}
use resp_bench.Client.Factory.{Drivers, create_and_connect}
use resp_bench.Metrics.{Histograms}
use resp_bench.Metrics.Writer.{Times, Doc, NdjsonWriter, new_writer, set_metadata}
use resp_bench.Engine.Phase.{World, EngineState, run_phases}

module _ (fl : Floats) (hs : Histograms) (ts : Times) (Client : Type 0) where
  -- What the sample client says of its driver.
  pub record SampleWorld : Type 0 where
    pub drivers : Drivers Client
    pub driver_version : Client → Result (Option String)
    pub secondary_driver_version : Client → Result (Option String)
    pub driver_details : Client → Result (Option (Dict (Doc fl hs ts)))
    pub close : Client → Result (Unit {0})

  abbrev described :
      SampleWorld
      → DriverConfig fl
      → Option String
      → NdjsonWriter fl hs ts
      → Client
      → Result (NdjsonWriter fl hs ts)
  described sample config commit_id w client = sample.driver_version client >>= λ version.
      sample.secondary_driver_version client >>= λ secondary_version.
      sample.driver_details client >>= λ details. ok (
        set_metadata fl hs ts w commit_id config.driver_id version (secondary_driver_id fl config)
          secondary_version details)

  -- The calls of the log line answer as they did before.
  abbrev sampled :
      SampleWorld
      → DriverConfig fl
      → Option String
      → NdjsonWriter fl hs ts
      → Result (NdjsonWriter fl hs ts)
  sampled sample config commit_id w =
      create_and_connect Client sample.drivers config.driver_id (pos 1) >>= λ client.
      described sample config commit_id w client >>= λ set. sample.close client >>= λ closed. ok set

  abbrev pub recovered :
      DriverConfig fl
      → Option String
      → NdjsonWriter fl hs ts
      → Result (NdjsonWriter fl hs ts)
      → Result (NdjsonWriter fl hs ts)
  recovered config commit_id w (ok set) = ok set
  recovered config commit_id w (err e) =
      if is_exception e
      then ok (
          set_metadata fl hs ts w commit_id config.driver_id (some "unknown")
            (secondary_driver_id fl config) none none)
      else err e

  -- What was set before an exception is set again.
  unfoldable pub setup_metadata :
      SampleWorld
      → DriverConfig fl
      → Option String
      → NdjsonWriter fl hs ts
      → Result (NdjsonWriter fl hs ts)
  unfolding create_and_connect set_metadata secondary_driver_id
  setup_metadata sample config commit_id w =
      recovered config commit_id w (sampled sample config commit_id w)

  unfoldable pub new_engine : String → EngineState fl hs ts Client
  unfolding new_writer
  new_engine metrics_path = record {
    writer = new_writer fl hs ts metrics_path;
    had_error = false;
    output = [];
  }

  -- The i-th phase runs in `worlds i`.
  abbrev pub in_worlds :
      (ℕ → World fl hs ts Client)
      → ℕ
      → List (PhaseConfig fl)
      → List (World fl hs ts Client × PhaseConfig fl)
  in_worlds worlds i [] = []
  in_worlds worlds i (p ∷ ps) = (worlds i, p) ∷ in_worlds worlds (suc i) ps

  abbrev pub run_with :
      List (World fl hs ts Client × PhaseConfig fl)
      → EngineState fl hs ts Client
      → Result (NdjsonWriter fl hs ts)
      → Result (Unit {0}) × EngineState fl hs ts Client
  run_with phases st (err e) = (err e, st)
  run_with phases st (ok writer) = run_phases fl hs ts Client phases (record st { writer = writer })

  abbrev pub after_name :
      Result (Option String)
      → EngineState fl hs ts Client
      → Result (Unit {0}) × EngineState fl hs ts Client
      → Result (Unit {0}) × EngineState fl hs ts Client
  after_name (err e) st later = (err e, st)
  after_name (ok name) st later = later

  -- The first log line reads the name of the workload.
  unfoldable pub run :
      SampleWorld
      → (ℕ → World fl hs ts Client)
      → DriverConfig fl
      → WorkloadConfig fl
      → Option String
      → EngineState fl hs ts Client
      → Result (Unit {0}) × EngineState fl hs ts Client
  unfolding setup_metadata run_phases name
  run sample worlds config workload commit_id st = after_name (name fl workload) st (
      run_with (in_worlds worlds 0 workload.phases) st
        (setup_metadata sample config commit_id st.writer))
