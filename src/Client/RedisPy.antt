-- ===== src/Client/RedisPy.antt =====
-- The redis-py driver (client/impl/redis_py_client.py): the arguments that it passes to the package,
-- the order of its calls, and what it reports. The package's client is a parameter: `construct` makes
-- one for a cluster or a single server, and `send_ping` answers the client after a PING.
mod Sockets
mod Tests
use resp_bench.Prelude.{
  ℕ, suc, zero, Bool, true, false, Option, none, some, List, [], ◌∷◌, String, if◌then◌else◌,
}
use resp_bench.Prelude.Dict.{Dict}
use resp_bench.Prelude.Dict
use resp_bench.Prelude.Int.{ℤ, pos, eqb_ℤ, leb_ℤ, pos_part}
use resp_bench.Prelude.Results.{Result, ok, err, ◌>>=◌}
use resp_bench.Floats.{Floats}
use resp_bench.Json.{Json, Fields, bool, int, real, text, get, end}
use resp_bench.Config.Driver.{DriverConfig, truthy, tls_enabled, is_cluster}
use resp_bench.Client.Factory.{max_in_flight}

-- An argument: a value, `Retry(NoBackoff(), 0)`, or an empty list.
pub data Argument (F : Type 0) : Type 0 where
  value : Json F → Argument F
  no_retries no_errors : Argument F

abbrev pub Arguments : Type 0 → Type 0
Arguments F = Dict (Argument F)

module _ {F : Type 0} where
  abbrev pub get_in : Option (Fields F) → String → Option (Json F)
  get_in none k = none
  get_in (some o) k = get o k

  -- `x is False`
  abbrev pub is_false : Option (Json F) → Bool
  is_false (some (bool false)) = true
  is_false _ = false

module _ (fl : Floats) where
  -- `if d.get(name): kwargs[key] = d[name]`
  abbrev pub put_given : Option (Json fl.Float) → String → Arguments fl.Float → Arguments fl.Float
  put_given none key kwargs = kwargs
  put_given (some v) key kwargs = if truthy fl v then Dict.put kwargs key (value v) else kwargs

  abbrev pub base_arguments : String → ℤ → ℤ → Arguments fl.Float
  base_arguments host port depth =
      ("host", value (text host))
      ∷ ("port", value (int port))
      ∷ ("decode_responses", value (bool false))
      ∷ ("protocol", value (int (pos 3)))
      ∷ ("retry", no_retries)
      ∷ ("retry_on_error", no_errors)
      ∷ ("max_connections", value (int depth))
      ∷ []

  abbrev pub tls_arguments : Option (Fields fl.Float) → Arguments fl.Float → Arguments fl.Float
  tls_arguments tls kwargs =
      let files = put_given (get_in tls "key_path") "ssl_keyfile" (
        put_given (get_in tls "cert_path") "ssl_certfile" (
          put_given (get_in tls "ca_path") "ssl_ca_certs"
            (Dict.put kwargs "ssl" (value (bool true))))) in
      if is_false (get_in tls "verify_hostname")
      then Dict.put files "ssl_check_hostname" (value (bool false))
      else files

  abbrev pub auth_arguments : Option (Fields fl.Float) → Arguments fl.Float → Arguments fl.Float
  auth_arguments auth kwargs =
      put_given (get_in auth "password") "password"
        (put_given (get_in auth "username") "username" kwargs)

  abbrev pub timeout_argument : Option ℤ → Arguments fl.Float → Arguments fl.Float
  timeout_argument none kwargs = kwargs
  timeout_argument (some ms) kwargs =
      if eqb_ℤ ms (pos 0)
      then kwargs
      else Dict.put kwargs "socket_timeout"
          (value (real (fl.div (fl.of_int ms) (fl.of_int (pos 1000)))))

  -- The arguments that `connect` constructs the package's client with.
  unfoldable pub arguments : String → ℤ → DriverConfig fl → ℤ → Arguments fl.Float
  unfolding Dict.put get tls_enabled
  arguments host port config depth = timeout_argument config.command_timeout_ms (
      auth_arguments config.auth (
        if tls_enabled fl config
        then tls_arguments config.tls (base_arguments host port depth)
        else base_arguments host port depth))

  pub record Package (C : Type 0) : Type 0 where
    pub construct : Bool → Arguments fl.Float → Result C
    pub send_ping : C → Result C
    pub aclose : C → Result (Unit {0})

  module _ {C : Type 0} (redis : Package C) where
    pub record RedisPyClient : Type 0 where
      pub client : Option C
      pub max_depth : ℤ

    abbrev pub new_client : RedisPyClient
    new_client = record { client = none; max_depth = pos 1 }

    -- `set_max_in_flight` of the base class
    unfoldable pub set_max_in_flight : ℤ → RedisPyClient → RedisPyClient
    unfolding max_in_flight
    set_max_in_flight depth c = record c { max_depth = max_in_flight depth }

    abbrev opened : RedisPyClient → C → RedisPyClient
    opened c handle = record c { client = some handle }

    unfoldable pub connect : String → ℤ → DriverConfig fl → RedisPyClient → Result RedisPyClient
    unfolding arguments is_cluster
    connect host port config c =
        redis.construct (is_cluster fl config) (arguments host port config c.max_depth)
        >>= redis.send_ping
        >>= λ handle. ok (opened c handle)

    unfoldable pub sockets_per_client : RedisPyClient → ℤ
    sockets_per_client c = c.max_depth

    -- The PINGs of `gather`, one after the other; how many there are is what counts.
    abbrev pings : ℕ → C → Result C
    pings zero handle = ok handle
    pings (suc n) handle = redis.send_ping handle >>= pings n

    -- How many PINGs `prime` sends at once.
    unfoldable pub primed : RedisPyClient → ℕ
    primed c = if leb_ℤ c.max_depth (pos 1) then 0 else pos_part c.max_depth

    unfoldable pub prime : RedisPyClient → C → Result C
    unfolding primed
    prime c handle = pings (primed c) handle

    unfoldable pub close : RedisPyClient → Result (Unit {0})
    close c = elim c.client [ none ↦ ok tt | some handle ↦ redis.aclose handle ]

-- `parser` is the name of the parser's class, none where looking it up raises.
unfoldable pub driver_details : {F : Type 0} → Option String → Dict (Json F)
driver_details parser =
    ("resp_protocol", int (pos 3))
    ∷ ("retries", int (pos 0))
    ∷ ("response_parser", text (elim parser [ none ↦ "unknown" | some name ↦ name ]))
    ∷ ("pipelining", text "connection-pool (up to pipeline_depth sockets per client)")
    ∷ []
