-- ===== src/Config/Loader.antt =====
-- From JSON documents to configurations (config/loader.py). The file reads around `json.load` are
-- left out: the definitions take the loaded document.
pub mod Accepted
pub mod Errors
use resp_bench.Prelude.{
  String, Bool, true, false, not, ◌&&◌, ◌||◌, Option, none, some, str_eq, List, [], ◌∷◌, map,
  if◌then◌else◌,
}
use resp_bench.Prelude.Int.{ℤ, pos, negsuc}
use resp_bench.Prelude.Texts.{concat, join, member, sorted_set}
use resp_bench.Prelude.Results.{
  Exc, value_error, ill_typed, Result, ok, err, ◌>>=◌, ◌>>◌, raise_if, map_result,
}
use resp_bench.Floats.{Floats}
use resp_bench.Json.{
  Json, Fields, end, get_text, get_text_or, get_int, get_int_or, get_float, get_dict, need_dict,
  get_dict_or_empty, get_list_or_empty,
}
use resp_bench.Config.Completion
use resp_bench.Config.Completion.{CompletionConfig, is_missing}
use resp_bench.Config.Keyspace
use resp_bench.Config.Keyspace.{KeyspaceConfig, not_positive, or_default}
use resp_bench.Config.Commands
use resp_bench.Config.Commands.{CommandConfig, supported_commands}
use resp_bench.Config.Phase
use resp_bench.Config.Phase.{PhaseConfig, WorkloadConfig}
use resp_bench.Config.Driver.{DriverConfig}

-- `{names} - set(supported)`, as a list
abbrev pub without : List String → List String → List String
without [] supported = []
without (n ∷ ns) supported =
    let rest = without ns supported in if member n supported then rest else n ∷ rest

abbrev pub is_empty {ℓ} : {A : Type ℓ} → List A → Bool
is_empty [] = true
is_empty (x ∷ xs) = false

-- `except ValueError as exc: raise ValueError(f"invalid phase '{phase_id}': {exc}")`
abbrev pub name_phase {ℓ} : {A : Type ℓ} → String → Result A → Result A
name_phase phase_id (err (value_error m)) =
    err (value_error (concat ("invalid phase '" ∷ phase_id ∷ "': " ∷ m ∷ [])))
name_phase phase_id r = r

-- `data.get("id") or "<unnamed>"`
abbrev pub shown_id : Option String → String
shown_id none = "<unnamed>"
shown_id (some s) = if str_eq s "" then "<unnamed>" else s

module _ (fl : Floats) where
  abbrev Doc : Type 0
  Doc = Json fl.Float

  unfoldable pub parse_completion : Fields fl.Float → Result CompletionConfig
  unfolding get_text get_int Completion.make
  parse_completion o = do
    type ← get_text o "type"
    seconds ← get_int o "seconds"
    requests ← get_int o "requests"
    ok (Completion.make type seconds requests)

  unfoldable pub parse_keyspace : Fields fl.Float → Result KeyspaceConfig
  unfolding get_int get_text get_text_or Keyspace.make
  parse_keyspace o = do
    keys_count ← get_int o "keys_count"
    key_size_bytes ← get_int o "key_size_bytes"
    key_prefix ← get_text o "key_prefix"
    generation_alg ← get_text_or o "generation_alg" "sequential_int"
    seed ← get_int o "seed"
    ok (Keyspace.make keys_count key_size_bytes key_prefix generation_alg seed)

  unfoldable pub parse_command : Doc → Result (CommandConfig fl)
  unfolding get_text get_float get_int Commands.make
  parse_command d = do
    o ← need_dict d
    command ← get_text o "command"
    weight ← get_float fl.of_int o "weight"
    data_size_bytes ← get_int o "data_size_bytes"
    Commands.make fl command weight data_size_bytes

  unfoldable pub build_phase : Fields fl.Float → Result (PhaseConfig fl)
  unfolding parse_completion parse_keyspace parse_command Phase.make get_dict_or_empty
      get_list_or_empty map_result get_int_or
  build_phase o = do
    id ← get_text o "id"
    description ← get_text o "description"
    connections ← get_int o "connections"
    cps ← get_int_or o "cps_limit" (negsuc 0)
    rps ← get_int_or o "rps_limit" (negsuc 0)
    depth ← get_int_or o "pipeline_depth" (pos 1)
    warmup ← get_int_or o "warmup_requests" (pos 1)
    completion ← (get_dict_or_empty o "completion" >>= parse_completion)
    keyspace ← (get_dict_or_empty o "keyspace" >>= parse_keyspace)
    commands ← (get_list_or_empty o "commands" >>= map_result parse_command)
    ok (Phase.make fl id connections completion keyspace commands description cps rps depth warmup)

  abbrev pub total_weight : List (CommandConfig fl) → fl.Float
  total_weight cs = fl.sum (map (λ c. c.weight) cs)

  abbrev pub names : List (CommandConfig fl) → List String
  names cs = map (λ c. c.command) cs

  -- The checks of `_parse_phase`, in their order.
  unfoldable pub check_phase : PhaseConfig fl → Result (Unit {0})
  unfolding Completion.validate Keyspace.validate sorted_set join
  check_phase p = do
    Completion.validate p.completion
    Keyspace.validate p.keyspace
    raise_if (not_positive p.connections) (value_error "connections must be a positive integer")
    raise_if (is_empty p.commands) (value_error "commands must contain at least one entry")
    let unsupported = without (names p.commands) supported_commands
    raise_if (not (is_empty unsupported)) (
        value_error (
          concat (
            "unsupported command(s) "
            ∷ join ", " (sorted_set unsupported)
            ∷ "; this engine supports: "
            ∷ join ", " supported_commands
            ∷ [])))
    raise_if (fl.leb (total_weight p.commands) (fl.of_int (pos 0)))
        (value_error "command weights must sum to a positive value")

  unfoldable pub parse_phase : Doc → Result (PhaseConfig fl)
  unfolding build_phase check_phase get_text
  parse_phase d = do
    o ← need_dict d
    id ← get_text o "id"
    name_phase (shown_id id) (do p ← build_phase o; check_phase p; ok p)

  unfoldable pub parse_workload_config : Doc → Result (WorkloadConfig fl)
  unfolding parse_phase map_result get_list_or_empty get_text_or get_dict
  parse_workload_config d = do
    o ← need_dict d
    phases ← (get_list_or_empty o "phases" >>= map_result parse_phase)
    schema_version ← get_text_or o "schema_version" "1.0"
    profile ← get_dict o "benchmark_profile"
    ok (record {
      schema_version = schema_version;
      benchmark_profile = or_default profile end;
      phases = phases;
    })

  unfoldable pub parse_driver_config : Doc → Result (DriverConfig fl)
  unfolding get_text get_text_or get_int get_dict
  parse_driver_config d = do
    o ← need_dict d
    schema_version ← get_text_or o "schema_version" "1.0"
    description ← get_text o "description"
    driver_id ← get_text o "driver_id"
    mode ← get_text_or o "mode" "standalone"
    command_timeout_ms ← get_int o "command_timeout_ms"
    tls ← get_dict o "tls"
    auth ← get_dict o "auth"
    specific ← get_dict o "specific_driver_config"
    ok (record {
      schema_version = schema_version;
      description = description;
      driver_id = driver_id;
      mode = mode;
      command_timeout_ms = command_timeout_ms;
      tls = tls;
      auth = auth;
      specific_driver_config = or_default specific end;
    })
