-- ===== src/Config/Keyspace.antt =====
-- Key generation settings (config/keyspace_config.py). `None` defaults are filled in by `make`.
use resp_bench.Prelude.{String, Bool, true, not, ◌||◌, Option, none, some, str_eq, [], ◌∷◌}
use resp_bench.Prelude.Int.{ℤ, pos, ltb_ℤ}
use resp_bench.Prelude.Texts.{concat}
use resp_bench.Prelude.Results.{value_error, Result, ◌>>◌, raise_if}

abbrev pub default_key_size_bytes : ℤ
default_key_size_bytes = pos 16

abbrev pub default_key_prefix : String
default_key_prefix = "bench:"

pub record KeyspaceConfig : Type 0 where
  pub keys_count : Option ℤ
  pub key_size_bytes : ℤ
  pub key_prefix : String
  pub generation_alg : String
  pub seed : Option ℤ

-- `x if x is not None else default`
abbrev pub or_default {ℓ} : {A : Type ℓ} → Option A → A → A
or_default none default = default
or_default (some a) default = a

unfoldable pub make :
    Option ℤ → Option ℤ → Option String → Option String → Option ℤ → KeyspaceConfig
make keys_count key_size_bytes key_prefix generation_alg seed = record {
  keys_count = keys_count;
  key_size_bytes = or_default key_size_bytes default_key_size_bytes;
  key_prefix = or_default key_prefix default_key_prefix;
  generation_alg = or_default generation_alg "sequential_int";
  seed = seed;
}

unfoldable pub is_sequential_int : KeyspaceConfig → Bool
is_sequential_int c = str_eq c.generation_alg "sequential_int"

unfoldable pub is_uniform_rand : KeyspaceConfig → Bool
is_uniform_rand c = str_eq c.generation_alg "uniform_rand"

-- `x is None or x < 1`
abbrev pub not_positive : Option ℤ → Bool
not_positive none = true
not_positive (some n) = ltb_ℤ n (pos 1)

unfoldable pub validate : KeyspaceConfig → Result (Unit {0})
unfolding is_sequential_int is_uniform_rand
validate c = do
  raise_if (not_positive c.keys_count)
      (value_error "keyspace.keys_count must be a positive integer")
  raise_if (ltb_ℤ c.key_size_bytes (pos 1))
      (value_error "keyspace.key_size_bytes must be a positive integer")
  raise_if (not (is_sequential_int c || is_uniform_rand c)) (
      value_error (
        concat (
          "Unknown keyspace.generation_alg: " ∷ c.generation_alg
          ∷ " (expected \"sequential_int\" or \"uniform_rand\")" ∷ [])))

unfoldable pub effective_key_prefix : KeyspaceConfig → String
effective_key_prefix c = c.key_prefix

unfoldable pub seed_value : KeyspaceConfig → ℤ
seed_value c = or_default c.seed (pos 0)
