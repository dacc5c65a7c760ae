-- ===== src/Cli/Tests.antt =====
-- Command lines, and the theorem at a run that completes.
use resp_bench.Prelude.{
  ℕ, ◌≡◌, refl, true, false, if◌then◌else◌, none, some, [], ◌∷◌, String, str_eq,
}
use resp_bench.Prelude.Int.{pos}
use resp_bench.Prelude.Results.{value_error, Result, ok, err, ◌>>=◌}
use resp_bench.Floats.Sample.{whole}
use resp_bench.Json.{text, arr, object, items_of}
use resp_bench.Config.Phase.{WorkloadConfig}
use resp_bench.Config.Driver.{DriverConfig}
use resp_bench.Config.Loader.{parse_driver_config, parse_workload_config}
use resp_bench.Config.Tests.{Doc, good}
use resp_bench.Metrics.Tests.{values, times}
use resp_bench.Engine.Phase.Tests.{calm}
use resp_bench.Engine.Setup.{in_worlds}
use resp_bench.Cli.{Options, CliWorld, parse_server, main}
use resp_bench.Cli.Exit.{AllCompleted, main-AllCompleted}

a_port : parse_server ":7000" ≡ ok ("localhost", pos 7000)
unfolding parse_server
a_port = refl

no_port : parse_server "h:a" ≡ err (value_error "invalid literal for int() with base 10: 'a'")
unfolding parse_server
no_port = refl

abbrev file : String → Result Doc
file path =
    if str_eq path "w.json"
    then ok (object (("phases", arr (items_of (good ∷ []))) ∷ []))
    else ok (object (("driver_id", text "recording") ∷ []))

abbrev world : CliWorld whole values times ℕ
world = record {
  exists = λ path. true;
  load = file;
  sample = record {
    drivers = record {
      construct = λ key. ok 0;
      set_max_in_flight = λ depth c. c;
      connect = λ c. ok c;
      prime = λ c. ok c;
    };
    driver_version = λ c. ok (some "1.0.0");
    secondary_driver_version = λ c. ok none;
    driver_details = λ c. ok none;
    close = λ c. ok tt;
  };
  worlds = λ i. calm;
}

abbrev options : Options
options = record {
  server = "localhost:6379";
  driver = some "d.json";
  workload = some "w.json";
  metrics = some "out.ndjson";
  commit_id = none;
  info = false;
}

main-AllCompleted_example :
    (config : DriverConfig whole) × ((file "d.json" >>= parse_driver_config whole) ≡ ok config)
    × (workload : WorkloadConfig whole) × ((file "w.json" >>= parse_workload_config whole)
        ≡ ok workload)
    × AllCompleted whole values times ℕ
        (in_worlds whole values times ℕ (λ i. calm) 0 workload.phases)
unfolding main
main-AllCompleted_example = main-AllCompleted whole values times ℕ world options refl refl
