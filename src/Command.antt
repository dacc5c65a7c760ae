-- ===== src/Command.antt =====
-- Commands and their factory (python/src/resp_bench/command). A client is any type of states with
-- the three operations; each gives a timed result and the client's next state.
pub mod Values
pub mod Selector
pub mod Tests
use Prim.Native.Nat.{min}
use resp_bench.Prelude.{
  ℕ, zero, suc, ◌+◌, ◌*◌, ◌/◌, String, Bool, true, false, Option, none, some, List, [], ◌∷◌, ◌++◌,
  map, str_eq, if◌then◌else◌,
}
use resp_bench.Prelude.Int.{ℤ, pos, negsuc}
use resp_bench.Prelude.Texts.{upper, lower, concat, join}
use resp_bench.Prelude.Results.{Exc, value_error, Result, ok, err, ◌>>=◌, map_result}
use resp_bench.Floats.{Floats}
use resp_bench.Config.Commands.{CommandConfig, supported_commands}

abbrev pub Bytes : Type 0
Bytes = List ℕ

-- What an operation of a client returns: a text, bytes, or None.
pub data Value : Type 0 where
  text : String → Value
  bytes : Bytes → Value
  nothing : Value

pub record TimedResult : Type 0 where
  pub value : Value
  pub latency_micros : ℕ
  pub error : Option Exc

-- `TimedResult.success`
abbrev pub success : TimedResult → Bool
success r = elim r.error [ none ↦ true | some e ↦ false ]

pub record CommandResult : Type 0 where
  pub command_name : String
  pub latency_micros : ℕ
  pub is_success : Bool

pub record ClientOps (S : Type 0) : Type 0 where
  pub ping : S → TimedResult × S
  pub get : String → S → TimedResult × S
  pub set : String → Bytes → S → TimedResult × S

-- `_PATTERN`
abbrev pub pattern_bytes : Bytes
pattern_bytes = 48 ∷ 49 ∷ 50 ∷ 51 ∷ 52 ∷ 53 ∷ 54 ∷ 55 ∷ 56 ∷ 57 ∷ 65 ∷ 66 ∷ 67 ∷ 68 ∷ 69 ∷ 70 ∷ []

abbrev pub repeat : ℕ → Bytes → Bytes
repeat zero bs = []
repeat (suc n) bs = bs ++ repeat n bs

abbrev pub take : ℕ → Bytes → Bytes
take zero bs = []
take (suc n) [] = []
take (suc n) (b ∷ bs) = b ∷ take n bs

-- `(_PATTERN * repeats)[:size]`; a negative size repeats the pattern no times.
unfoldable pub generate_value : ℤ → Bytes
generate_value (pos size) = take size (repeat (size / 16 + 1) pattern_bytes)
generate_value (negsuc n) = []

pub data Kind : Type 0 where
  ping_command get_command set_command : Kind

module _ (fl : Floats) where
  pub record Command : Type 0 where
    pub kind : Kind
    pub weight : fl.Float
    pub name : String
    pub data_size_bytes : ℤ
    pub value : Bytes

  abbrev value_of : Kind → ℤ → Bytes
  value_of set_command size = generate_value size
  value_of k size = []

  -- `command_class(config)`
  unfoldable pub new : Kind → CommandConfig fl → Command
  unfolding generate_value upper
  new k config = record {
    kind = k;
    weight = config.weight;
    name = upper config.command;
    data_size_bytes = config.data_size_bytes;
    value = value_of k config.data_size_bytes;
  }

  -- `CommandFactory.create`
  unfoldable pub create : CommandConfig fl → Result Command
  unfolding new join
  create config =
      if str_eq config.command "ping"
      then ok (new ping_command config)
      else if str_eq config.command "get"
      then ok (new get_command config)
      else if str_eq config.command "set"
      then ok (new set_command config)
      else err (
          value_error (
            concat (
              "Unknown command: "
              ∷ config.command
              ∷ ". Supported: "
              ∷ join ", " supported_commands
              ∷ [])))

  unfoldable pub create_all : List (CommandConfig fl) → Result (List Command)
  unfolding create map_result
  create_all configs = map_result create configs

  abbrev call : {S : Type 0} → ClientOps S → Command → String → S → TimedResult × S
  call ops c key s = elim c.kind [
    | ping_command ↦ ops.ping s
    | get_command ↦ ops.get key s
    | set_command ↦ ops.set key c.value s
  ]

  -- What `execute` makes of the answer of its client.
  abbrev pub result_of : Command → TimedResult → CommandResult
  result_of c r = record {
    command_name = c.name;
    latency_micros = r.latency_micros;
    is_success = success r;
  }

  -- `Command.execute`, of the three classes
  unfoldable pub execute : {S : Type 0} → ClientOps S → Command → String → S → CommandResult × S
  execute ops c key s = let (r, s') = call ops c key s in (result_of c r, s')
