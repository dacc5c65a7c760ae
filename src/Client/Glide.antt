-- ===== src/Client/Glide.antt =====
-- The GLIDE driver (client/impl/glide_client.py): the configuration that it passes to the package and
-- what it reports. A timeout is passed on as it is, in milliseconds.
use resp_bench.Prelude.{Bool, ◌||◌, Option, none, some, List, [], ◌∷◌, String, if◌then◌else◌}
use resp_bench.Prelude.Dict.{Dict}
use resp_bench.Prelude.Int.{ℤ, pos}
use resp_bench.Prelude.Results.{Result, ok, ◌>>=◌}
use resp_bench.Floats.{Floats}
use resp_bench.Json.{Json, Fields, int, text, get}
use resp_bench.Config.Driver.{DriverConfig, has_truthy, tls_enabled, is_cluster}
use resp_bench.Client.RedisPy.{get_in}

-- `ServerCredentials`
pub record Credentials (F : Type 0) : Type 0 where
  pub password : Json F
  pub username : Option (Json F)

pub record Configuration (F : Type 0) : Type 0 where
  pub addresses : List (String × ℤ)
  pub use_tls : Bool
  pub credentials : Option (Credentials F)
  pub request_timeout : Option ℤ

module _ (fl : Floats) where
  abbrev or_empty : Option (Json fl.Float) → Json fl.Float
  or_empty none = text ""
  or_empty (some v) = v

  abbrev credentials_of : Option (Fields fl.Float) → Option (Credentials fl.Float)
  credentials_of auth =
      if has_truthy fl auth "password" || has_truthy fl auth "username"
      then some (record {
        password = or_empty (get_in auth "password");
        username = get_in auth "username";
      })
      else none

  unfoldable pub configuration : String → ℤ → DriverConfig fl → Configuration fl.Float
  unfolding get tls_enabled
  configuration host port config = record {
    addresses = (host, port) ∷ [];
    use_tls = tls_enabled fl config;
    credentials = credentials_of config.auth;
    request_timeout = config.command_timeout_ms;
  }

  -- `create` is that of the class for a cluster or a single server; the result is the driver's client.
  unfoldable pub connect :
      {C : Type 0}
      → (Bool → Configuration fl.Float → Result C)
      → String
      → ℤ
      → DriverConfig fl
      → Result (Option C)
  unfolding configuration is_cluster
  connect create host port config =
      create (is_cluster fl config) (configuration host port config) >>= λ client. ok (some client)

  unfoldable pub close : {C : Type 0} → (C → Result (Unit {0})) → Option C → Result (Unit {0})
  close shut none = ok tt
  close shut (some client) = shut client

-- `installed` is the version of the package's metadata, none where that raises.
unfoldable pub driver_version : Option String → String
driver_version installed = elim installed [ none ↦ "unknown" | some version ↦ version ]

unfoldable pub driver_details : {F : Type 0} → Dict (Json F)
driver_details =
    ("resp_protocol", int (pos 3))
    ∷ ("response_parser", text "glide-rust")
    ∷ ("retries", int (pos 0))
    ∷ ("pipelining", text "multiplexed (1 socket per client)")
    ∷ []
