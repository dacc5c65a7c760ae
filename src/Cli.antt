-- ===== src/Cli.antt =====
-- The command line of the engine (cli.py): its options, their checks, and the exit code. What argparse
-- reads is given.
pub mod Exit
pub mod Tests
use Prim.Native.Char.{code}
use Prim.Native.String
use resp_bench.Prelude.{
  ℕ, zero, suc, ◌+◌, ◌-◌, ◌*◌, Bool, true, false, not, ◌&&◌, ◌||◌, leb, ◌==◌, Option, none, some,
  List, [], ◌∷◌, ◌++◌, String, str_eq, if◌then◌else◌,
}
use resp_bench.Prelude.Int.{ℤ, pos, negsuc, sub_ℕ}
use resp_bench.Prelude.Texts.{concat, join, strip}
use resp_bench.Prelude.Results.{
  Exc, value_error, is_exception, Result, ok, err, raise_if, ◌>>=◌, ◌>>◌,
}
use resp_bench.Floats.{Floats}
use resp_bench.Json.{Json}
use resp_bench.Config.Driver.{DriverConfig}
use resp_bench.Config.Phase.{WorkloadConfig}
use resp_bench.Config.Loader.{parse_driver_config, parse_workload_config}
use resp_bench.Metrics.{Histograms}
use resp_bench.Metrics.Writer.{Times}
use resp_bench.Engine.Phase.{World, EngineState}
use resp_bench.Engine.Setup.{SampleWorld, new_engine, run}

-- The digits of a number: underscores may stand between two of them.
abbrev digits : Bool → ℕ → String → Option ℕ
digits after_digit n String.[] = if after_digit then some n else none
digits after_digit n (String.◌∷◌ c s) =
    let is_digit = leb 48 (code c) && leb (code c) 57 in
    let rest = digits is_digit (if is_digit then n * 10 + (code c - 48) else n) s in
    if is_digit || (code c == 95 && after_digit) then rest else none

abbrev signed : String → Option ℤ
signed String.[] = none
signed (String.◌∷◌ c s) = elim (code c == 45) [
  | true ↦ elim (digits false 0 s) [ none ↦ none | some n ↦ some (sub_ℕ 0 n) ]
  | false ↦ elim (digits false 0 (if code c == 43 then s else String.◌∷◌ c s)) [
    | none ↦ none
    | some n ↦ some (pos n)
  ]
]

-- `int(text)`, over the digits of ASCII
unfoldable pub parse_int : String → Result ℤ
unfolding strip
parse_int s = elim (signed (strip s)) [
  | some n ↦ ok n
  | none ↦ err (value_error (concat ("invalid literal for int() with base 10: '" ∷ s ∷ "'" ∷ [])))
]

-- `server.partition(":")`, without the separator
abbrev before_colon : String → String
before_colon String.[] = String.[]
before_colon (String.◌∷◌ c s) = if code c == 58 then String.[] else String.◌∷◌ c (before_colon s)

abbrev after_colon : String → String
after_colon String.[] = String.[]
after_colon (String.◌∷◌ c s) = if code c == 58 then s else after_colon s

unfoldable pub parse_server : String → Result (String × ℤ)
unfolding parse_int
parse_server server =
    let host = before_colon server in
    let port = after_colon server in
    (if str_eq port "" then ok (pos 6379) else parse_int port) >>= λ n.
    ok (if str_eq host "" then "localhost" else host, n)

pub record Options : Type 0 where
  pub server : String
  pub driver : Option String
  pub workload : Option String
  pub metrics : Option String
  pub commit_id : Option String
  pub info : Bool

abbrev given : Option String → String
given none = ""
given (some s) = s

abbrev missing_flag : String → Option String → List String
missing_flag flag value = if str_eq (given value) "" then flag ∷ [] else []

abbrev missing : Options → List String
missing options =
    missing_flag "--driver" options.driver
    ++ (missing_flag "--workload" options.workload ++ missing_flag "--metrics" options.metrics)

abbrev none_missing : List String → Result (Unit {0})
none_missing [] = ok tt
none_missing (f ∷ fs) =
    err (value_error (concat ("Missing required options: " ∷ join ", " (f ∷ fs) ∷ [])))

-- `exists` is `os.path.exists`.
unfoldable pub validate : (String → Bool) → Options → Result (Unit {0})
unfolding join
validate exists options =
    none_missing (missing options)
    >> raise_if (not (exists (given options.driver)))
        (value_error (concat ("Driver config not found: " ∷ given options.driver ∷ [])))
    >> raise_if (not (exists (given options.workload)))
        (value_error (concat ("Workload config not found: " ∷ given options.workload ∷ [])))

module _ (fl : Floats) (hs : Histograms) (ts : Times) (Client : Type 0) where
  -- `load` is opening a file and `json.load`; the rest is what the engine's run is given.
  pub record CliWorld : Type 0 where
    pub exists : String → Bool
    pub load : String → Result (Json fl.Float)
    pub sample : SampleWorld fl hs ts Client
    pub worlds : ℕ → World fl hs ts Client

  abbrev pub error_flag : Result (Unit {0}) × EngineState fl hs ts Client → Result Bool
  error_flag (ok u, st) = ok st.had_error
  error_flag (err e, st) = err e

  unfoldable pub run_benchmark : CliWorld → Options → Result Bool
  unfolding parse_server parse_driver_config parse_workload_config new_engine run
  run_benchmark world options = parse_server options.server >>= λ server.
      (world.load (given options.driver) >>= parse_driver_config fl) >>= λ driver_config.
      (world.load (given options.workload) >>= parse_workload_config fl) >>= λ workload_config.
      error_flag (
        run fl hs ts Client world.sample world.worlds driver_config workload_config
          options.commit_id (new_engine fl hs ts Client (given options.metrics)))

  -- The exit code, or the exception that `main` lets pass.
  abbrev pub code_of : Result Bool → Result ℕ
  code_of (ok true) = ok 1
  code_of (ok false) = ok 0
  code_of (err e) = if is_exception e then ok 1 else err e

  unfoldable pub main : CliWorld → Options → Result ℕ
  unfolding validate run_benchmark
  main world options =
      if options.info
      then ok 0
      else code_of (validate world.exists options >> run_benchmark world options)
