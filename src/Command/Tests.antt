-- ===== src/Command/Tests.antt =====
-- Commands of a phase, and the theorems at inputs that meet their hypotheses.
use resp_bench.Prelude.{◌≡◌, refl, [], length}
use resp_bench.Prelude.Int.{pos, negsuc}
use resp_bench.Floats.Sample.{whole}
use resp_bench.Config.Commands.{CommandConfig}
use resp_bench.Command.{Command, get_command, new, generate_value}

abbrev get_config : CommandConfig whole
get_config = record { command = "get"; weight = pos 1; data_size_bytes = pos 256 }

abbrev set_config : CommandConfig whole
set_config = record { command = "set"; weight = pos 1; data_size_bytes = pos 20 }

abbrev get_one : Command whole
get_one = record {
  kind = get_command;
  weight = pos 1;
  name = "GET";
  data_size_bytes = pos 256;
  value = [];
}

made : new whole get_command get_config ≡ get_one
unfolding new
made = refl

twenty_bytes : length (generate_value (pos 20)) ≡ 20
unfolding generate_value
twenty_bytes = refl

negative_size : generate_value (negsuc 4) ≡ []
unfolding generate_value
negative_size = refl
