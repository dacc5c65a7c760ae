-- ===== src/Matrix/Server/Preflight.antt =====
-- What the drivers of a matrix want of a server, and the check before a sweep.
use resp_bench.Prelude.{
  ℕ, Bool, true, false, not, ◌&&◌, Option, none, some, List, [], ◌∷◌, ◌++◌, String, str_eq,
  if◌then◌else◌,
}
use resp_bench.Prelude.Int.{ℤ}
use resp_bench.Prelude.Dict.{Dict, put}
use resp_bench.Prelude.Dict
use resp_bench.Prelude.Texts.{concat, lower, member, sorted_set}
use resp_bench.Prelude.Results.{Result, ok, err, ◌>>=◌}
use resp_bench.Floats.{Floats}
use resp_bench.Config.Driver.{truthy, has_truthy}
use resp_bench.Keys.{decimal}
use resp_bench.Json.{Json, Fields, end, get, need_dict}
use resp_bench.Matrix.{
  Host, str_of, read_driver_config, config_needs_server, Outcome, refused, raised, done,
}
use resp_bench.Matrix.Series.{Combo}
use resp_bench.Matrix.Server.{
  Server, server_text, cli_connection_args, Ping, at_least_one, probe_server,
}

-- A driver's `auth` and `tls`.
abbrev pub Credentials : Type 0 → Type 0
Credentials F = Fields F × Fields F

module _ (fl : Floats) (host : Host fl.Float) where
  -- `cfg.get(key) or {}`, a value that is set and no dict being outside the model
  abbrev dict_or_empty : Option (Json fl.Float) → Result (Fields fl.Float)
  dict_or_empty none = ok end
  dict_or_empty (some v) = if truthy fl v then need_dict v else ok end

  abbrev setting : Fields fl.Float → Result (Option (Credentials fl.Float))
  setting cfg =
      if config_needs_server host cfg
      then (dict_or_empty (get cfg "auth") >>= λ auth.
          dict_or_empty (get cfg "tls") >>= λ tls. ok (some (auth, tls)))
      else ok none

  abbrev driver_config_of : Combo fl.Float → Result (Fields fl.Float)
  driver_config_of combo = read_driver_config host combo.driver_config >>= need_dict

  abbrev pub Settings : Type 0
  Settings = Dict (Option (Credentials fl.Float))

  abbrev settings_from : Settings → List (Combo fl.Float) → Result Settings
  settings_from settings [] = ok settings
  settings_from settings (combo ∷ combos) = elim (Dict.get settings combo.driver_config) [
    | some known ↦ settings_from settings combos
    | none ↦ driver_config_of combo >>= λ cfg.
        setting cfg >>= λ s. settings_from (put settings combo.driver_config s) combos
  ]

  unfoldable pub driver_server_settings : List (Combo fl.Float) → Result Settings
  unfolding read_driver_config config_needs_server Dict.get put get
  driver_server_settings combos = settings_from [] combos

  abbrev mode_of : Fields fl.Float → String
  mode_of cfg = lower (elim (get cfg "mode") [ none ↦ "standalone" | some v ↦ str_of host v ])

  abbrev add_mode : Fields fl.Float → List String → List String
  add_mode cfg modes =
      if config_needs_server host cfg && not (str_eq (mode_of cfg) "standalone")
      then mode_of cfg ∷ modes
      else modes

  abbrev modes_from : List (Combo fl.Float) → Result (List String)
  modes_from [] = ok []
  modes_from (combo ∷ combos) =
      driver_config_of combo >>= λ cfg. modes_from combos >>= λ modes. ok (add_mode cfg modes)

  unfoldable pub non_standalone_modes : List (Combo fl.Float) → Result (List String)
  unfolding read_driver_config config_needs_server get lower str_of sorted_set
  non_standalone_modes combos = modes_from combos >>= λ modes. ok (sorted_set modes)

  -- `dumps` is `json.dumps` with sorted keys.
  module _ (dumps : Credentials fl.Float → String) where
    abbrev pub unique_from : List String → Settings → List (Credentials fl.Float)
    unique_from seen [] = []
    unique_from seen ((path, none) ∷ settings) = unique_from seen settings
    unique_from seen ((path, some v) ∷ settings) = elim (member (dumps v) seen) [
      | true ↦ unique_from seen settings
      | false ↦ v ∷ unique_from (dumps v ∷ seen) settings
    ]

    unfoldable pub unique_server_credentials : Settings → List (Credentials fl.Float)
    unique_server_credentials settings = unique_from [] settings

  abbrev endpoint : Server → Fields fl.Float → String
  endpoint server tls =
      concat
        (server_text server ∷ (if has_truthy fl (some tls) "enabled" then " (tls)" else "") ∷ [])

  abbrev pub after_probe : String → ℕ → Result (Bool × String) → Outcome Unit → Outcome Unit
  after_probe label attempts (err e) later = raised e
  after_probe label attempts (ok (true, reply)) later = later
  after_probe label attempts (ok (false, detail)) later = refused (
      concat (
        "server at "
        ∷ label
        ∷ " did not answer PING after "
        ∷ decimal attempts
        ∷ " attempt(s): "
        ∷ detail
        ∷ []))

  -- The command line of the PING to a server with some credentials.
  abbrev pub ping_cmd : String → Server → Credentials fl.Float → List String
  ping_cmd cli server (auth, tls) =
      cli ∷ (cli_connection_args fl host server.server_host server.port auth tls ++ ("ping" ∷ []))

  -- What running a command comes to at its k-th attempt is `pings cmd k`.
  unfoldable pub probe_all :
      Server → ℤ → (List String → ℕ → Ping) → String → List (Credentials fl.Float) → Outcome Unit
  unfolding probe_server cli_connection_args get decimal
  probe_all server attempts pings cli [] = done tt
  probe_all server attempts pings cli ((auth, tls) ∷ rest) =
      after_probe (endpoint server tls) (at_least_one attempts)
        (probe_server (pings (ping_cmd cli server (auth, tls))) attempts).0
        (probe_all server attempts pings cli rest)

  abbrev no_cli : String → String
  no_cli project = concat (
      "no " ∷ project ∷ "-cli binary found. Looked for $RESP_BENCH_CLI, work/" ∷ project ∷ "/bin/"
      ∷ project ∷ "-cli (built by the Makefile's server targets), and " ∷ project
      ∷ "-cli/valkey-cli/redis-cli on PATH. Build the server binaries, install a CLI, or set "
      ∷ "$RESP_BENCH_CLI to its path." ∷ [])

  abbrev pub keep_cli : String → Outcome Unit → Outcome (Option String)
  keep_cli cli (refused message) = refused message
  keep_cli cli (raised e) = raised e
  keep_cli cli (done u) = done (some cli)

  abbrev pub with_cli : Option String → String → (String → Outcome Unit) → Outcome (Option String)
  with_cli none project probe = refused (no_cli project)
  with_cli (some cli) project probe = keep_cli cli (probe cli)

  abbrev pub preflight_over :
      List (Credentials fl.Float)
      → Option String
      → String
      → (String → List (Credentials fl.Float) → Outcome Unit)
      → Outcome (Option String)
  preflight_over [] cli project probe = done none
  preflight_over (c ∷ cs) cli project probe = with_cli cli project (λ found. probe found (c ∷ cs))

  -- `cli` is what `resolve_cli_path` answers, `project` what $SERVER_PROJECT or its default says.
  unfoldable pub preflight_server :
      (Credentials fl.Float → String)
      → Settings
      → Server
      → Option String
      → String
      → ℤ
      → (List String → ℕ → Ping)
      → Outcome (Option String)
  unfolding unique_server_credentials probe_all
  preflight_server dumps settings server cli project attempts pings =
      preflight_over (unique_server_credentials dumps settings) cli project
        (probe_all server attempts pings)
