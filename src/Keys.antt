-- ===== src/Keys.antt =====
-- Key generation (python/src/resp_bench/engine/key_generator.py). The counter may be shared between
-- generators, so it is passed in and out beside the generator. Uniform keys take fuel for the
-- rejection loop of the random port.
pub mod Format
pub mod Streams
pub mod Reset
pub mod Tests
use Prim.Native.Nat.{max}
use Prim.Native.Char.{Char}
use Prim.Native.String.{◌++◌, count, char_at}
use Prim.Native.String
use resp_bench.Prelude.{
  ℕ, zero, suc, ◌+◌, ◌-◌, ◌/◌, ◌%◌, String, Bool, ◌==◌, ltb, if◌then◌else◌, Option, none, some,
}
use resp_bench.Prelude.Int.{ℤ, pos, negsuc, pos_part, ◌-ℤ◌}
use resp_bench.Prelude.Results.{Exc, failure}
use resp_bench.Config.Keyspace.{KeyspaceConfig, is_sequential_int, effective_key_prefix, seed_value}
use resp_bench.Random
use resp_bench.Random.{JavaRandom, Draw, raised, spinning, drew, next_int}

-- `Counter`: its value; `next_value` returns it and adds one.
abbrev pub Counter : Type 0
Counter = ℕ

unfoldable pub next_value : Counter → ℕ × Counter
next_value c = (c, c + 1)

unfoldable pub reset_counter : Counter → Counter
reset_counter c = 0

abbrev pub digit : ℕ → Char
digit d = char_at "0123456789" d

-- The decimal digits of `n`, with fuel above its number of digits.
unfoldable pub digits : ℕ → ℕ → String
digits zero n = ""
digits (suc fuel) n =
    let front = digits fuel (n / 10) in
    if ltb n 10 then String.◌∷◌ (digit n) "" else front ++ String.◌∷◌ (digit (n % 10)) ""

unfoldable pub decimal : ℕ → String
unfolding digits
decimal n = digits (n + 1) n

unfoldable pub zeros : ℕ → String
zeros zero = ""
zeros (suc n) = String.◌∷◌ (digit 0) (zeros n)

-- `f"{n:0{width}d}"`
unfoldable pub padded : ℕ → ℕ → String
unfolding zeros decimal
padded width n = zeros (width - count (decimal n)) ++ decimal n

pub record KeyGenerator : Type 0 where
  pub config : KeyspaceConfig
  pub key_prefix : String
  pub key_size_bytes : ℤ
  pub keys_count : ℕ
  pub seed : ℤ
  pub random : JavaRandom

-- `keys_count` of a keyspace that `validate` accepts is positive; a missing or negative one is read
-- as 0, for which `next_key` raises.
abbrev pub count_of : Option ℤ → ℕ
count_of none = 0
count_of (some n) = pos_part n

unfoldable pub create_with_seed : KeyspaceConfig → ℤ → KeyGenerator
unfolding effective_key_prefix Random.new
create_with_seed config seed = record {
  config = config;
  key_prefix = effective_key_prefix config;
  key_size_bytes = config.key_size_bytes;
  keys_count = count_of config.keys_count;
  seed = seed;
  random = Random.new seed;
}

unfoldable pub create : KeyspaceConfig → KeyGenerator
unfolding create_with_seed seed_value
create config = create_with_seed config (seed_value config)

-- `max(key_size_bytes - len(key_prefix), 1)`
unfoldable pub padding_width : KeyGenerator → ℕ
padding_width g = max (pos_part (g.key_size_bytes -ℤ pos (count g.key_prefix))) 1

unfoldable pub format_key : KeyGenerator → ℕ → String
unfolding padding_width padded
format_key g key_index = g.key_prefix ++ padded (padding_width g) key_index

pub data Key : Type 0 where
  key : String → Key
  raises : Exc → Key
  spins : Key

-- `key_index %= self._keys_count`, and the format
abbrev pub finish : KeyGenerator → ℕ → Key
finish g i =
    if g.keys_count == 0
    then raises (failure "integer modulo by zero")
    else key (format_key g (i % g.keys_count))

abbrev pub from_draw : KeyGenerator → Counter → Draw → Key × KeyGenerator × Counter
from_draw g c (raised e) = (raises e, g, c)
from_draw g c (spinning r) = (spins, record g { random = r }, c)
from_draw g c (drew i r) = (finish g i, record g { random = r }, c)

unfoldable pub next_key : ℕ → KeyGenerator → Counter → Key × KeyGenerator × Counter
unfolding is_sequential_int next_value format_key next_int
next_key fuel g c =
    if is_sequential_int g.config
    then (let (i, c') = next_value c in (finish g i, g, c'))
    else from_draw g c (next_int fuel (pos g.keys_count) g.random)

unfoldable pub reset : KeyGenerator → Counter → KeyGenerator × Counter
unfolding reset_counter Random.set_seed
reset g c = (record g { random = Random.set_seed g.random g.seed }, reset_counter c)
