-- ===== src/Client/Factory.antt =====
-- Which driver a name stands for, and opening a client of it (client/factory.py), over what the drivers'
-- constructors and methods come to (client/benchmark_client.py).
use resp_bench.Prelude.{Option, none, some, List, [], ◌∷◌, String, if◌then◌else◌}
use resp_bench.Prelude.Int.{ℤ, pos, leb_ℤ}
use resp_bench.Prelude.Texts.{concat, join, lower, member}
use resp_bench.Prelude.Results.{value_error, Result, err, ◌>>=◌}

abbrev pub supported_drivers : List String
supported_drivers = "valkey-glide-python" ∷ "redis-py" ∷ "recording" ∷ []

-- `driver_id or ""`
abbrev pub id_text : Option String → String
id_text none = ""
id_text (some s) = s

-- `max(1, depth)`
unfoldable pub max_in_flight : ℤ → ℤ
max_in_flight depth = if leb_ℤ (pos 1) depth then depth else pos 1

module _ (Client : Type 0) where
  -- `construct key` is the constructor under that key; `connect` and `prime` give the client after them.
  pub record Drivers : Type 0 where
    pub construct : String → Result Client
    pub set_max_in_flight : ℤ → Client → Client
    pub connect : Client → Result Client
    pub prime : Client → Result Client

  unfoldable pub create : Drivers → Option String → Result Client
  unfolding lower join
  create drivers driver_id =
      if member (lower (id_text driver_id)) supported_drivers
      then drivers.construct (lower (id_text driver_id))
      else err (
          value_error (
            concat (
              "Unknown driver: "
              ∷ (elim driver_id [ none ↦ "None" | some s ↦ s ])
              ∷ ". Supported: "
              ∷ join ", " supported_drivers
              ∷ [])))

  unfoldable pub create_and_connect : Drivers → Option String → ℤ → Result Client
  unfolding create max_in_flight
  create_and_connect drivers driver_id pipeline_depth = create drivers driver_id >>= λ client.
      drivers.connect (drivers.set_max_in_flight (max_in_flight pipeline_depth) client)
      >>= drivers.prime
