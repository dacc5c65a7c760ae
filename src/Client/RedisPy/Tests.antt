-- ===== src/Client/RedisPy/Tests.antt =====
-- The arguments of a client at a concrete configuration.
use Prim.Native.Nat.{max}
use resp_bench.Prelude.{◌≡◌, none, some, true, false}
use resp_bench.Prelude.Results.{ok}
use resp_bench.Prelude.Dict
use resp_bench.Prelude.Int.{ℤ, pos}
use resp_bench.Floats.Sample.{whole}
use resp_bench.Json.{bool, int, text, field, end}
use resp_bench.Config.Driver.{DriverConfig}
use resp_bench.Client.RedisPy.{
  value, no_retries, arguments, Package, RedisPyClient, new_client, set_max_in_flight,
  sockets_per_client, primed,
}
use resp_bench.Client.RedisPy.Sockets.{connect-capped}

abbrev config : DriverConfig whole
config = record {
  schema_version = none;
  description = none;
  driver_id = some "redis-py";
  mode = some "standalone";
  command_timeout_ms = some (pos 500);
  tls = some (field "enabled" (bool true) (field "verify_hostname" (bool false) end));
  auth = some (field "password" (text "secret") end);
  specific_driver_config = end;
}

abbrev redis : Package whole ℤ
redis = record {
  construct = λ cluster kwargs. ok (pos 0);
  send_ping = λ c. ok c;
  aclose = λ c. ok tt;
}

abbrev client : RedisPyClient whole redis
client = set_max_in_flight whole redis (pos 4) (new_client whole redis)

connect-capped_example :
    (Dict.get (arguments whole "localhost" (pos 6379) config client.max_depth) "max_connections"
      ≡ some (value (int (sockets_per_client whole redis client))))
    × (Dict.get (arguments whole "localhost" (pos 6379) config client.max_depth) "retry"
        ≡ some no_retries)
    × (sockets_per_client whole redis client ≡ pos (max 1 (primed whole redis client)))
connect-capped_example =
    connect-capped whole redis (new_client whole redis) (pos 4) "localhost" (pos 6379) config
