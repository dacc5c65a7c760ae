-- ===== src/Config/Commands.antt =====
-- Per-command settings (config/command_config.py) and the names that the engine implements
-- (command/factory.py).
use resp_bench.Prelude.{String, Option, List, [], ◌∷◌, if◌then◌else◌}
use resp_bench.Prelude.Int.{ℤ, pos}
use resp_bench.Prelude.Texts.{lower}
use resp_bench.Prelude.Results.{value_error, Result, ok, err}
use resp_bench.Floats.{Floats}
use resp_bench.Config.Completion.{is_missing}
use resp_bench.Config.Keyspace.{or_default}

abbrev pub default_data_size_bytes : ℤ
default_data_size_bytes = pos 256

module _ (fl : Floats) where
  pub record CommandConfig : Type 0 where
    pub command : String
    pub weight : fl.Float
    pub data_size_bytes : ℤ

  unfoldable pub make : Option String → Option fl.Float → Option ℤ → Result CommandConfig
  unfolding lower
  make command weight data_size_bytes =
      if is_missing command
      then err (value_error "commands[].command is required and must be non-empty")
      else ok (record {
        command = lower (or_default command "");
        weight = or_default weight (fl.of_int (pos 1));
        data_size_bytes = or_default data_size_bytes default_data_size_bytes;
      })

-- `CommandFactory.supported_commands()`
abbrev pub supported_commands : List String
supported_commands = "ping" ∷ "get" ∷ "set" ∷ []
