-- ===== src/Config/Phase.antt =====
-- One phase, and a workload of phases (config/phase_config.py, config/workload_config.py).
use resp_bench.Prelude.{String, Bool, Option, List, if◌then◌else◌}
use resp_bench.Prelude.Int.{ℤ, pos, negsuc, ltb_ℤ}
use resp_bench.Floats.{Floats}
use resp_bench.Json.{Fields, get_text}
use resp_bench.Prelude.Results.{Result}
use resp_bench.Config.Completion.{CompletionConfig}
use resp_bench.Config.Keyspace.{KeyspaceConfig, or_default}
use resp_bench.Config.Commands.{CommandConfig}

abbrev pub default_pipeline_depth : ℤ
default_pipeline_depth = pos 1

abbrev pub default_warmup_requests : ℤ
default_warmup_requests = pos 1

module _ (fl : Floats) where
  pub record PhaseConfig : Type 0 where
    pub id : Option String
    pub connections : Option ℤ
    pub completion : CompletionConfig
    pub keyspace : KeyspaceConfig
    pub commands : List (CommandConfig fl)
    pub description : Option String
    pub cps_limit : ℤ
    pub rps_limit : ℤ
    pub pipeline_depth : ℤ
    pub warmup_requests : ℤ

  -- `PhaseConfig(...)`: `__post_init__` replaces the last four where they are None.
  unfoldable pub make :
      Option String
      → Option ℤ
      → CompletionConfig
      → KeyspaceConfig
      → List (CommandConfig fl)
      → Option String
      → Option ℤ
      → Option ℤ
      → Option ℤ
      → Option ℤ
      → PhaseConfig
  make id connections completion keyspace commands description cps rps depth warmup = record {
    id = id;
    connections = connections;
    completion = completion;
    keyspace = keyspace;
    commands = commands;
    description = description;
    cps_limit = or_default cps (negsuc 0);
    rps_limit = or_default rps (negsuc 0);
    pipeline_depth = or_default depth default_pipeline_depth;
    warmup_requests = or_default warmup default_warmup_requests;
  }

  unfoldable pub has_cps_limit : PhaseConfig → Bool
  has_cps_limit p = ltb_ℤ (pos 0) p.cps_limit

  unfoldable pub has_rps_limit : PhaseConfig → Bool
  has_rps_limit p = ltb_ℤ (pos 0) p.rps_limit

  unfoldable pub effective_pipeline_depth : PhaseConfig → ℤ
  effective_pipeline_depth p =
      if ltb_ℤ (pos 0) p.pipeline_depth then p.pipeline_depth else default_pipeline_depth

  pub record WorkloadConfig : Type 0 where
    pub schema_version : Option String
    pub benchmark_profile : Fields fl.Float
    pub phases : List PhaseConfig

  unfoldable pub name : WorkloadConfig → Result (Option String)
  name w = get_text w.benchmark_profile "name"
