-- ===== src/Config/Tests.antt =====
-- Documents, what they load as, and the theorems at them.
use resp_bench.Prelude.{String, ◌≡◌, refl, none, some, [], ◌∷◌}
use resp_bench.Prelude.Int.{pos, negsuc}
use resp_bench.Prelude.Results.{value_error, ok, err}
use resp_bench.Floats.Sample.{whole}
use resp_bench.Json.{Json, end, int, text, arr, object, items_of}
use resp_bench.Config.Phase.{PhaseConfig, WorkloadConfig}
use resp_bench.Config.Loader.{parse_phase, parse_workload_config}
use resp_bench.Config.Loader.Accepted.{IsRunnable, parse_phase-IsRunnable}

abbrev pub Doc : Type 0
Doc = Json whole.Float

abbrev phase_doc : Doc → Doc
phase_doc commands = object (
    ("id", text "populate")
    ∷ ("connections", int (pos 2))
    ∷ ("completion", object (("type", text " Requests ") ∷ ("requests", int (pos 10)) ∷ []))
    ∷ ("keyspace", object (("keys_count", int (pos 100)) ∷ []))
    ∷ ("commands", arr (items_of (commands ∷ [])))
    ∷ [])

abbrev pub good : Doc
good = phase_doc (object (("command", text "GET") ∷ []))

abbrev typo : Doc
typo = phase_doc (object (("command", text "HGET") ∷ []))

abbrev pub populate : PhaseConfig whole
populate = record {
  id = some "populate";
  connections = some (pos 2);
  completion = record { type = some "requests"; seconds = none; requests = some (pos 10) };
  keyspace = record {
    keys_count = some (pos 100);
    key_size_bytes = pos 16;
    key_prefix = "bench:";
    generation_alg = "sequential_int";
    seed = none;
  };
  commands = record { command = "get"; weight = pos 1; data_size_bytes = pos 256 } ∷ [];
  description = none;
  cps_limit = negsuc 0;
  rps_limit = negsuc 0;
  pipeline_depth = pos 1;
  warmup_requests = pos 1;
}

good_loads : parse_phase whole good ≡ ok populate
unfolding parse_phase
good_loads = refl

pub runnable : IsRunnable whole populate
runnable = parse_phase-IsRunnable whole good populate good_loads

parse_phase-IsRunnable_example : IsRunnable whole populate
parse_phase-IsRunnable_example = parse_phase-IsRunnable whole good populate good_loads

abbrev workload : WorkloadConfig whole
workload = record { schema_version = some "1.0"; benchmark_profile = end; phases = populate ∷ [] }

workload_loads :
    parse_workload_config whole (object (("phases", arr (items_of (good ∷ []))) ∷ [])) ≡ ok workload
unfolding parse_workload_config
workload_loads = refl

abbrev complaint : String
complaint =
    "invalid phase 'populate': unsupported command(s) hget; this engine supports: ping, get, set"

typo_fails : parse_phase whole typo ≡ err (value_error complaint)
unfolding parse_phase
typo_fails = refl
