-- ===== src/Keys/Tests.antt =====
-- Keys of the unit tests of the source, and the theorems at inputs that meet their hypotheses.
use resp_bench.Prelude.{String, ◌≡◌, refl, none, some}
use resp_bench.Prelude.Int.{pos}
use resp_bench.Config.Keyspace.{KeyspaceConfig}
use resp_bench.Keys.{key, create_with_seed, create, format_key, next_key}

abbrev keyspace : String → KeyspaceConfig
keyspace alg = record {
  keys_count = some (pos 100);
  key_size_bytes = pos 16;
  key_prefix = "bench:";
  generation_alg = alg;
  seed = none;
}

abbrev sequential : KeyspaceConfig
sequential = keyspace "sequential_int"

abbrev uniform : KeyspaceConfig
uniform = keyspace "uniform_rand"

first_key : (next_key 9 (create sequential) 0).0 ≡ key "bench:0000000000"
unfolding next_key create
first_key = refl

wrapped_key : (next_key 9 (create sequential) 107).0 ≡ key "bench:0000000007"
unfolding next_key create
wrapped_key = refl

-- The draws of seed 42 are 30, then 63.
uniform_keys :
    let (first, g, c) = next_key 9 (create_with_seed uniform (pos 42)) 0 in
    (first ≡ key "bench:0000000030") × ((next_key 9 g c).0 ≡ key "bench:0000000063")
unfolding next_key create_with_seed
uniform_keys = (refl, refl)

long_prefix :
    format_key (create (record sequential { key_prefix = "longprefix:"; key_size_bytes = pos 2 })) 0
    ≡ "longprefix:0"
unfolding format_key create
long_prefix = refl
