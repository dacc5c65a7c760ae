-- ===== src/Engine/Phase/Tests.antt =====
-- A phase that completes and one whose second connection fails, and the theorems at them.
use resp_bench.Prelude.{
  ℕ, ◌≤◌, ◌<◌, ◌≡◌, ◌↔◌, refl, true, false, if◌then◌else◌, none, some, [], ◌∷◌, ◌++◌, str_eq,
  length, All, arith, ◌==◌,
}
use resp_bench.Prelude.Results.{failure, Result, ok, err}
use resp_bench.Prelude.Int.{pos}
use resp_bench.Floats.Sample.{whole}
use resp_bench.Config.Phase.{PhaseConfig}
use resp_bench.Config.Tests.{populate}
use resp_bench.Metrics.{MetricsCollector, new_collector}
use resp_bench.Metrics.Writer.{Doc}
use resp_bench.Metrics.Tests.{values, times}
use resp_bench.Command.{text}
use resp_bench.Engine.Phase.{
  World, create_clients, guarded, workload_status, raised_by, EngineState, execute_phase,
  run_phases,
}
use resp_bench.Engine.Phase.Rows.{IsRow, execute_phase-IsRow, execute_phase-leaks}
use resp_bench.Engine.Phase.Status.{status, workload-completed_iff, run_phases-completed}

abbrev counted : MetricsCollector values → MetricsCollector values
counted c = record c { total_requests = 10; total_errors = 1 }

-- Clients are numbers.
abbrev pub calm : World whole values times ℕ
calm = record {
  connect = λ i. ok i;
  ping = λ c i. ok (record { value = text "PONG"; latency_micros = 3; error = none });
  order = λ cs. cs;
  workload = λ cs commands c. (ok tt, counted c);
  close = λ c. err (failure "already closed");
  sockets_per_client = λ c. pos 1;
  started_at = 100;
  late_start = 200;
  stopped_at = 300;
  written_at = 400;
}

abbrev second_fails : ℕ → Result ℕ
second_fails i = if i == 1 then err (failure "maxclients") else ok i

abbrev full_server : World whole values times ℕ
full_server = record calm { connect = second_fails }

abbrev fresh_engine : EngineState whole values times ℕ
fresh_engine = record {
  writer = record {
    output_path = "out.ndjson";
    commit_id = none;
    driver_id = some "recording";
    primary_driver_version = some "1.0.0";
    secondary_driver_id = none;
    secondary_driver_version = none;
    driver_details = [];
  };
  had_error = false;
  output = [];
}

calm_completes : status whole values times ℕ calm populate ≡ "COMPLETED"
unfolding guarded
calm_completes = refl

full_fails : status whole values times ℕ full_server populate ≡ "ERROR"
unfolding guarded
full_fails = refl

execute_phase-IsRow_example :
    (d : Doc whole values times) × ((execute_phase whole values times ℕ calm populate
        fresh_engine).1.output
      ≡ [] ++ (d ∷ []))
    × IsRow whole values times ℕ (status whole values times ℕ calm populate) d
    × ((execute_phase whole values times ℕ calm populate fresh_engine).1.had_error
        ≡ (if str_eq (status whole values times ℕ calm populate) "COMPLETED" then false else true))
    × ((execute_phase whole values times ℕ calm populate fresh_engine).0
        ≡ raised_by whole values times ℕ (guarded whole values times ℕ calm populate).1.0)
execute_phase-IsRow_example =
    execute_phase-IsRow whole values times ℕ calm populate fresh_engine (λ c. refl)

first_opens : (k : ℕ) → k < 1 → second_fails k ≡ ok k
first_opens k h = ground (arith, h)

execute_phase-leaks_example :
    (length (create_clients whole values times ℕ full_server 2 0 []).1 ≡ 1)
    × ((guarded whole values times ℕ full_server populate).0 ≡ [])
execute_phase-leaks_example =
    execute_phase-leaks whole values times ℕ full_server populate 2 1 (λ k. k)
      (failure "maxclients") refl first_opens refl (omega arith)

abbrev fine : Result (Unit {0})
fine = ok tt

workload-completed_iff_example :
    (workload_status whole values times ℕ fine (counted (new_collector values)) ≡ ok "COMPLETED")
    ↔ ((fine ≡ ok tt) × ((1 ≤ 10) → 1 < 10))
workload-completed_iff_example =
    workload-completed_iff whole values times ℕ fine (counted (new_collector values)) (omega arith)

one_phase_passes : (run_phases whole values times ℕ ((calm, populate) ∷ []) fresh_engine).0 ≡ ok tt
unfolding run_phases
one_phase_passes = refl

one_phase_is_fine :
    (run_phases whole values times ℕ ((calm, populate) ∷ []) fresh_engine).1.had_error ≡ false
unfolding run_phases
one_phase_is_fine = refl

run_phases-completed_example :
    (false ≡ false)
    × All
        (λ (wp : World whole values times ℕ × PhaseConfig whole).
          status whole values times ℕ wp.0 wp.1 ≡ "COMPLETED")
        ((calm, populate) ∷ [])
run_phases-completed_example =
    run_phases-completed whole values times ℕ ((calm, populate) ∷ []) fresh_engine one_phase_passes
      one_phase_is_fine
