-- ===== src/Client/RedisPy/Sockets.antt =====
-- The sockets of a client of redis-py.
use resp_bench.Prelude.{
  ◌≡◌, refl, ap, ◌∙◌, true, false, Bool-cases, inl, inr, Option, none, some, List, [], ◌∷◌, String,
  str_eq, leb, if◌then◌else◌, arith, All,
}
use Prim.Native.Nat.{max}
use resp_bench.Prelude.Dict
use resp_bench.Prelude.Dict.{Dict, get-put}
use resp_bench.Prelude.Int.{ℤ, pos, negsuc, eqb_ℤ, leb_ℤ, pos_part}
use resp_bench.Floats.{Floats}
use resp_bench.Json.{Json, Fields, bool, int}
use resp_bench.Config.Driver.{DriverConfig, truthy, tls_enabled}
use resp_bench.Client.Factory.{max_in_flight}
use resp_bench.Client.RedisPy.{
  Argument, Arguments, value, no_retries, arguments, put_given, get_in, is_false, auth_arguments,
  timeout_argument, tls_arguments, base_arguments, Package, RedisPyClient, set_max_in_flight,
  sockets_per_client, primed,
}

-- The arguments that depend on the configuration.
abbrev optional_keys : List String
optional_keys =
    "ssl" ∷ "ssl_ca_certs" ∷ "ssl_certfile" ∷ "ssl_keyfile" ∷ "ssl_check_hostname" ∷ "username"
    ∷ "password" ∷ "socket_timeout" ∷ []

abbrev IsFixed : String → Type 0
IsFixed k = All (λ j. str_eq j k ≡ false) optional_keys

-- A depth above one is the number of PINGs that prime the pool.
depth_lem :
    (depth : ℤ)
    → max_in_flight depth
      ≡ pos (
          max 1 (if leb_ℤ (max_in_flight depth) (pos 1) then 0 else pos_part (max_in_flight depth)))
unfolding max_in_flight
depth_lem (pos n) = elim (Bool-cases (leb n 1)) [
  | inl e ↦ ground (arith, e)
  | inr e ↦ ground (arith, e)
]
depth_lem (negsuc n) = ground arith

module _ (fl : Floats) where
  put_other :
      (d : Arguments fl.Float) (j k : String) (a : Argument fl.Float)
      → str_eq j k ≡ false
      → Dict.get (Dict.put d j a) k ≡ Dict.get d k
  put_other d j k a h = get-put d j k a ∙ ap (λ b. if b then some a else Dict.get d k) h

  given_other :
      (v : Option (Json fl.Float)) (d : Arguments fl.Float) (j k : String)
      → str_eq j k ≡ false
      → Dict.get (put_given fl v j d) k ≡ Dict.get d k
  given_other none d j k h = refl
  given_other (some v) d j k h = elim (Bool-cases (truthy fl v)) [
    | inl e ↦ rw e (put_other d j k (value v) h)
    | inr e ↦ rw e refl
  ]

  auth_other :
      (auth : Option (Fields fl.Float)) (d : Arguments fl.Float) (k : String)
      → IsFixed k
      → Dict.get (auth_arguments fl auth d) k ≡ Dict.get d k
  auth_other auth d k f =
      given_other (get_in auth "password") _ "password" k f.1.1.1.1.1.1.0
      ∙ given_other (get_in auth "username") d "username" k f.1.1.1.1.1.0

  timeout_other :
      (timeout : Option ℤ) (d : Arguments fl.Float) (k : String)
      → IsFixed k
      → Dict.get (timeout_argument fl timeout d) k ≡ Dict.get d k
  timeout_other none d k f = refl
  timeout_other (some ms) d k f = elim (Bool-cases (eqb_ℤ ms (pos 0))) [
    | inl e ↦ rw e refl
    | inr e ↦ rw e (put_other d "socket_timeout" k _ f.1.1.1.1.1.1.1.0)
  ]

  tls_other :
      (tls : Option (Fields fl.Float)) (d : Arguments fl.Float) (k : String)
      → IsFixed k
      → Dict.get (tls_arguments fl tls d) k ≡ Dict.get d k
  tls_other tls d k f =
      let files =
        given_other (get_in tls "key_path") _ "ssl_keyfile" k f.1.1.1.0
        ∙ given_other (get_in tls "cert_path") _ "ssl_certfile" k f.1.1.0
        ∙ given_other (get_in tls "ca_path") _ "ssl_ca_certs" k f.1.0
        ∙ put_other d "ssl" k (value (bool true)) f.0 in
      elim (Bool-cases (is_false (get_in tls "verify_hostname"))) [
        | inl e ↦ rw e (put_other _ "ssl_check_hostname" k _ f.1.1.1.1.0 ∙ files)
        | inr e ↦ rw e files
      ]

  fixed_arguments :
      (host : String) (port depth : ℤ) (config : DriverConfig fl) (k : String)
      → IsFixed k
      → Dict.get (arguments fl host port config depth) k
        ≡ Dict.get (base_arguments fl host port depth) k
  unfolding arguments
  fixed_arguments host port depth config k f =
      timeout_other config.command_timeout_ms _ k f ∙ auth_other config.auth _ k f ∙ chosen
    where
      chosen :
          Dict.get
            (if tls_enabled fl config
              then tls_arguments fl config.tls (base_arguments fl host port depth)
              else base_arguments fl host port depth)
            k
          ≡ Dict.get (base_arguments fl host port depth) k
      chosen = elim (Bool-cases (tls_enabled fl config)) [
        | inl e ↦ rw e (tls_other config.tls (base_arguments fl host port depth) k f)
        | inr e ↦ rw e refl
      ]

  base_max :
      (host : String) (port depth : ℤ)
      → Dict.get (base_arguments fl host port depth) "max_connections" ≡ some (value (int depth))
  unfolding Dict.get
  base_max host port depth = refl

  base_retry :
      (host : String) (port depth : ℤ)
      → Dict.get (base_arguments fl host port depth) "retry" ≡ some no_retries
  unfolding Dict.get
  base_retry host port depth = refl

  -- Whatever the configuration and the pipeline depth are, the pool of the package is capped at the
  -- sockets that the client reports, requests are not tried again, and priming opens each of the
  -- sockets where there are several.
  pub connect-capped :
      {C : Type 0} (redis : Package fl C) (c : RedisPyClient fl redis) (depth : ℤ) (host : String)
      (port : ℤ) (config : DriverConfig fl)
      → (Dict.get
            (arguments fl host port config (set_max_in_flight fl redis depth c).max_depth)
            "max_connections"
          ≡ some (value (int (sockets_per_client fl redis (set_max_in_flight fl redis depth c)))))
        × (Dict.get
              (arguments fl host port config (set_max_in_flight fl redis depth c).max_depth)
              "retry"
            ≡ some no_retries)
        × (sockets_per_client fl redis (set_max_in_flight fl redis depth c)
            ≡ pos (max 1 (primed fl redis (set_max_in_flight fl redis depth c))))
  unfolding set_max_in_flight sockets_per_client primed
  connect-capped redis c depth host port config =
      let max_fixed : IsFixed "max_connections" =
        (refl, (refl, (refl, (refl, (refl, (refl, (refl, (refl, tt)))))))) in
      let retry_fixed : IsFixed "retry" =
        (refl, (refl, (refl, (refl, (refl, (refl, (refl, (refl, tt)))))))) in
      let m = max_in_flight depth in
      (
        fixed_arguments host port m config "max_connections" max_fixed ∙ base_max host port m,
        fixed_arguments host port m config "retry" retry_fixed ∙ base_retry host port m,
        depth_lem depth,
      )
