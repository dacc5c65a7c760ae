-- ===== src/Matrix.antt =====
-- The matrix runner (scripts/run_benchmark_matrix.py): its constants, and what it is given by the
-- machine that it runs on.
pub mod Dimensions
pub mod Parse
pub mod Combos
pub mod Series
pub mod Server
pub mod Results
pub mod Manifest
pub mod Generate
pub mod Cell
pub mod Run
pub mod Main
pub mod Tests
use resp_bench.Prelude.{
  suc, Bool, true, false, not, ◌||◌, Option, none, some, List, [], ◌∷◌, String, if◌then◌else◌,
}
use resp_bench.Prelude.Int.{ℤ, pos, negsuc}
use resp_bench.Prelude.Dict.{Dict}
use resp_bench.Prelude.Dict
use resp_bench.Prelude.Paths.{starts_with}
use resp_bench.Prelude.Texts.{concat, lower, member}
use resp_bench.Prelude.Results.{Exc, failure, Result, ok, err, ◌>>=◌, value_error, ill_typed}
use resp_bench.Keys.{decimal}
use resp_bench.Json.{Json, Fields, null, bool, int, real, text, arr, obj, end, get, need_dict}

abbrev pub dim_connections : String
dim_connections = "connections"

abbrev pub dim_driver_config : String
dim_driver_config = "driver_config"

abbrev pub dim_pool_size : String
dim_pool_size = "pool_size"

abbrev pub dim_env : String
dim_env = "env"

abbrev pub driver_config_dims : List String
driver_config_dims = dim_pool_size ∷ "use_pooling" ∷ "share_native_connection" ∷ []

abbrev pub driver_engine_map : Dict String
driver_engine_map =
    ("jedis", "java")
    ∷ ("lettuce", "java")
    ∷ ("valkey-glide", "java")
    ∷ ("redisson", "java")
    ∷ ("spring-data-valkey", "java")
    ∷ ("spring-data-redis", "java")
    ∷ ("redis-rb", "ruby")
    ∷ ("valkey-glide-ruby", "ruby")
    ∷ ("stackexchange-redis", "csharp")
    ∷ ("valkey-glide-csharp", "csharp")
    ∷ ("valkey-glide-php", "php")
    ∷ ("phpredis", "php")
    ∷ ("valkey-glide-node", "node")
    ∷ ("ioredis", "node")
    ∷ ("iovalkey", "node")
    ∷ ("redis-py", "python")
    ∷ ("valkey-glide-python", "python")
    ∷ ("valkey-glide-rust", "rust")
    ∷ ("redis-rs", "rust")
    ∷ ("valkey-glide-go", "go")
    ∷ ("go-redis", "go")
    ∷ ("recording", "java")
    ∷ []

abbrev pub serverless_driver_ids : List String
serverless_driver_ids = "recording" ∷ []

-- What a step of a run comes to: a PreflightError, another exception, or a value.
pub data Outcome (V : Type 0) : Type 0 where
  refused : String → Outcome V
  raised : Exc → Outcome V
  done : V → Outcome V

module _ {V : Type 0} where
  abbrev pub outcome_of : Result V → Outcome V
  outcome_of (err e) = raised e
  outcome_of (ok v) = done v

module _ {V : Type 0} {B : Type 0} where
  -- What is no value skips what follows.
  abbrev pub onward : Outcome V → (V → Outcome B) → Outcome B
  onward (refused message) next = refused message
  onward (raised e) next = raised e
  onward (done v) next = next v

-- What opening a file and `json.load` come to: a document, an OSError or JSONDecodeError with its
-- message, or another exception.
pub data Read (F : Type 0) : Type 0 where
  document : Json F → Read F
  unreadable : String → Read F
  undecodable : Exc → Read F

-- The file system, the text of floats and containers under `str`, and `repr`.
pub record Host (F : Type 0) : Type 0 where
  pub is_file : String → Bool
  pub repo_root : String
  pub read : String → Read F
  pub str : Json F → String
  pub repr : Json F → String

abbrev is_absolute : String → Bool
is_absolute p = starts_with p "/"

module _ {F : Type 0} where
  -- `str(value)`
  unfoldable pub str_of : Host F → Json F → String
  unfolding decimal
  str_of host null = "None"
  str_of host (bool true) = "True"
  str_of host (bool false) = "False"
  str_of host (int (pos n)) = decimal n
  str_of host (int (negsuc n)) = concat ("-" ∷ decimal (suc n) ∷ [])
  str_of host (text s) = s
  str_of host v = host.str v

  -- The path that is opened for `path_str`, which itself stays as it is written.
  unfoldable pub resolve_config_path : Host F → String → Option String
  resolve_config_path host path_str =
      let from_repo_root = concat (host.repo_root ∷ "/" ∷ path_str ∷ []) in
      if host.is_file path_str
      then some path_str
      else if not (is_absolute path_str)
      then if host.is_file from_repo_root then some from_repo_root else none
      else none

  unfoldable pub open_config_path : Host F → String → Result String
  unfolding resolve_config_path
  open_config_path host path_str = elim (resolve_config_path host path_str) [
    | some resolved ↦ ok resolved
    | none ↦
        err (
          failure
            (concat ("config file referenced by the matrix does not exist: " ∷ path_str ∷ [])))
  ]

  -- `json.load` of a file, with its exceptions.
  abbrev pub loaded : Read F → Result (Json F)
  loaded (document v) = ok v
  loaded (unreadable message) = err (failure message)
  loaded (undecodable e) = err e

  -- A document that is no object has no `get`: what reads it raises AttributeError.
  unfoldable pub read_driver_config : Host F → String → Result (Json F)
  read_driver_config host path = elim (host.read path) [
    | document v ↦ ok v
    | unreadable message ↦ ok (obj end)
    | undecodable e ↦ err e
  ]

  unfoldable pub config_needs_server : Host F → Fields F → Bool
  unfolding get lower str_of
  config_needs_server host config = not (
      member (lower (elim (get config "driver_id") [ none ↦ "" | some v ↦ str_of host v ]))
        serverless_driver_ids)

  -- `config.get("driver_id", "").lower()`, which fails on a value that is no text
  abbrev driver_id : Fields F → Result String
  driver_id config = elim (get config "driver_id") [
    | none ↦ ok ""
    | some (text s) ↦ ok (lower s)
    | some v ↦ err ill_typed
  ]

  unfoldable pub detect_engine_for_driver : Read F → Result String
  unfolding Dict.get get lower
  detect_engine_for_driver (document v) = need_dict v >>= λ config. driver_id config >>= λ name.
      ok (elim (Dict.get driver_engine_map name) [ none ↦ "java" | some engine ↦ engine ])
  detect_engine_for_driver (unreadable message) = ok "java"
  detect_engine_for_driver (undecodable e) = err e
