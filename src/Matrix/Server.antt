-- ===== src/Matrix/Server.antt =====
-- The server of a run: connection flags, the readiness probe, the credentials of the drivers
-- and the preflight check.
pub mod Probe
pub mod Preflight
pub mod Ready
use resp_bench.Prelude.{
  ℕ, zero, suc, ◌+◌, Bool, true, false, not, ◌&&◌, ◌||◌, Option, none, some, List, [], ◌∷◌, ◌++◌,
  String, str_eq, if◌then◌else◌, leb,
}
use resp_bench.Prelude.Int.{ℤ, pos, pos_part, negsuc, eqb_ℤ}
use resp_bench.Prelude.Dict.{Dict, put}
use resp_bench.Prelude.Dict
use resp_bench.Prelude.Paths.{contains}
use resp_bench.Prelude.Texts.{concat, join, lower, upper, strip, member, sorted_set}
use resp_bench.Prelude.Results.{Exc, Result, ok, err, ◌>>=◌}
use resp_bench.Floats.{Floats}
use resp_bench.Config.Driver.{truthy, has_truthy}
use resp_bench.Keys.{decimal}
use resp_bench.Json.{Json, Fields, end, obj, int, get, need_dict}
use resp_bench.Matrix.{
  Host, str_of, read_driver_config, config_needs_server, Outcome, refused, raised, done, outcome_of,
  onward,
}
use resp_bench.Matrix.Series.{Combo}

abbrev default_server_project : String
default_server_project = "valkey"

-- `env.get(name) or default`
abbrev env_or : Dict String → String → String → String
env_or env name default = elim (Dict.get env name) [
  | none ↦ default
  | some s ↦ if str_eq s "" then default else s
]

abbrev first_found : (String → Option String) → List String → Option String
first_found which [] = none
first_found which (name ∷ names) = elim (which name) [
  | none ↦ first_found which names
  | some found ↦ if str_eq found "" then first_found which names else some found
]

-- `is_executable` tests for a file that may be executed. A name that stands twice in the list is asked
-- for once by the code, and answers the same again here.
unfoldable pub resolve_cli_path :
    Dict String → (String → Bool) → (String → Option String) → String → Option String
unfolding Dict.get
resolve_cli_path env is_executable which repo_root =
    let override = env_or env "RESP_BENCH_CLI" "" in
    let project = env_or env "SERVER_PROJECT" default_server_project in
    let cli = concat (project ∷ "-cli" ∷ []) in
    let built = concat (repo_root ∷ "/work/" ∷ project ∷ "/bin/" ∷ cli ∷ []) in
    if not (str_eq override "")
    then some override
    else if is_executable built
    then some built
    else first_found which (cli ∷ "valkey-cli" ∷ "redis-cli" ∷ [])

-- The host and the port of a server.
pub record Server : Type 0 where
  pub server_host : String
  pub port : String

-- `f"{server_host}:{port}"`
abbrev pub server_text : Server → String
server_text server = concat (server.server_host ∷ ":" ∷ server.port ∷ [])

module _ (fl : Floats) (host : Host fl.Float) where
  abbrev set_value : Fields fl.Float → String → Option String
  set_value o k = elim (get o k) [
    | none ↦ none
    | some v ↦ if truthy fl v then some (str_of host v) else none
  ]

  abbrev flag : String → Option String → List String
  flag name none = []
  flag name (some value) = name ∷ value ∷ []

  abbrev password_args : Fields fl.Float → Option String → List String
  password_args auth none = []
  password_args auth (some password) =
      "--no-auth-warning" ∷ "-a" ∷ password ∷ flag "--user" (set_value auth "username")

  abbrev verifies_hostname : Fields fl.Float → Bool
  verifies_hostname tls = elim (get tls "verify_hostname") [ none ↦ true | some v ↦ truthy fl v ]

  abbrev tls_args : Fields fl.Float → List String
  tls_args tls =
      "--tls"
      ∷ (flag "--cacert" (set_value tls "ca_path")
          ++ flag "--cert" (set_value tls "cert_path")
          ++ flag "--key" (set_value tls "key_path")
          ++ (if verifies_hostname tls then [] else "--insecure" ∷ []))

  unfoldable pub cli_connection_args :
      String → String → Fields fl.Float → Fields fl.Float → List String
  unfolding get str_of
  cli_connection_args server_host port auth tls =
      "-h"
      ∷ server_host
      ∷ "-p"
      ∷ port
      ∷ (password_args auth (set_value auth "password")
          ++ (if has_truthy fl (some tls) "enabled" then tls_args tls else []))

-- What one PING through the CLI comes to: its exit code and output, an OSError or SubprocessError (a
-- timeout is one), or another exception.
pub data Ping : Type 0 where
  answered : ℤ → String → String → Ping
  unanswered : String → Ping
  ping_raised : Exc → Ping

pub data Verdict : Type 0 where
  ready not_ready : String → Verdict
  broken : Exc → Verdict

abbrev first_set : String → String → String
first_set s t = if str_eq s "" then t else s

abbrev exit_text : ℤ → String
exit_text (pos n) = concat ("exit code " ∷ decimal n ∷ [])
exit_text (negsuc n) = concat ("exit code -" ∷ decimal (suc n) ∷ [])

unfoldable pub judge : Ping → Verdict
unfolding strip upper decimal
judge (answered returncode out errors) =
    let stdout = strip out in
    let stderr = strip errors in
    if eqb_ℤ returncode (pos 0) && contains (upper stdout) "PONG"
    then ready stdout
    else not_ready (first_set stderr (first_set stdout (exit_text returncode)))
judge (unanswered message) = not_ready message
judge (ping_raised e) = broken e

pub data Action : Type 0 where
  pinged slept : Action

abbrev pub Probed : Type 0
Probed = Result (Bool × String) × List Action

abbrev pub pause : ℕ → List Action
pause zero = []
pause (suc n) = slept ∷ []

abbrev pub after_ping : ℕ → Verdict → (String → Probed) → Probed
after_ping left (ready reply) later = (ok (true, reply), pinged ∷ [])
after_ping left (broken e) later = (err e, pinged ∷ [])
after_ping left (not_ready detail) later =
    let (result, actions) = later detail in (result, pinged ∷ (pause left ++ actions))

-- The loop from number `attempt` on, with the number of attempts that are left.
unfoldable pub probe_from : (ℕ → Ping) → ℕ → ℕ → String → Probed
unfolding judge
probe_from ping zero attempt detail = (ok (false, detail), [])
probe_from ping (suc n) attempt detail =
    after_ping n (judge (ping attempt)) (probe_from ping n (suc attempt))

-- `max(1, attempts)`
abbrev pub at_least_one : ℤ → ℕ
at_least_one attempts = if leb 1 (pos_part attempts) then pos_part attempts else 1

-- The result, and what the probe did; `ping` says what each attempt comes to.
unfoldable pub probe_server : (ℕ → Ping) → ℤ → Probed
unfolding probe_from
probe_server ping attempts = probe_from ping (at_least_one attempts) 1 "no attempt made"
