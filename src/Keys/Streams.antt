-- ===== src/Keys/Streams.antt =====
-- The two ways to a key, and the sequence of the sequential keys.
use resp_bench.Prelude.{
  ℕ, zero, suc, ◌+◌, ◌%◌, ◌<◌, ◌≡◌, refl, ap, ◌↔◌, true, false, List, [], ◌∷◌, String, length,
  arith, ◌==◌,
}
use resp_bench.Prelude.Int.{pos}
use resp_bench.Config.Keyspace.{is_sequential_int}
use resp_bench.Keys.{KeyGenerator, key, Counter, format_key, next_key, finish, from_draw}
use resp_bench.Keys.Format.{format_key_inj}
use resp_bench.Random.{next_int}

-- The two ways to a key, their parts shut.
pub next_key-uniform :
    (fuel : ℕ) (g : KeyGenerator) (c : Counter)
    → is_sequential_int g.config ≡ false
    → next_key fuel g c ≡ from_draw g c (next_int fuel (pos g.keys_count) g.random)
unfolding next_key
next_key-uniform fuel g c e = rw e

pub next_key-sequential :
    (fuel : ℕ) (g : KeyGenerator) (c : Counter)
    → is_sequential_int g.config ≡ true
    → next_key fuel g c ≡ (finish g c, g, c + 1)
unfolding next_key
next_key-sequential fuel g c e = rw e

zero_test : (k : ℕ) → 0 < k → (k == 0) ≡ false
zero_test k p = ground arith

-- The first n keys of the sequence, the last one first.
abbrev pub keys_before : KeyGenerator → ℕ → List String
keys_before g zero = []
keys_before g (suc n) = format_key g (n % g.keys_count) ∷ keys_before g n

pub length-keys_before : (g : KeyGenerator) (n : ℕ) → length (keys_before g n) ≡ n
length-keys_before g zero = refl
length-keys_before g (suc n) = ap suc (length-keys_before g n)

-- What the generators of the connections of a phase share.
pub record Alike (g h : KeyGenerator) : Type 0 where
  pub prefix : h.key_prefix ≡ g.key_prefix
  pub size : h.key_size_bytes ≡ g.key_size_bytes
  pub number : h.keys_count ≡ g.keys_count
  pub mode : is_sequential_int h.config ≡ true

pub finish-Alike :
    (g h : KeyGenerator) (n : ℕ)
    → 0 < g.keys_count
    → Alike g h
    → finish h n ≡ key (format_key g (n % g.keys_count))
unfolding format_key
finish-Alike g h n p a = rw (a.number, a.prefix, a.size, zero_test g.keys_count p) refl

-- The n-th and the m-th sequential key are the same exactly if n and m agree modulo the number of
-- keys: the keys repeat with that period, and no two of one period are equal.
pub finish-eq_iff :
    (g : KeyGenerator) (n m : ℕ)
    → 0 < g.keys_count
    → (finish g n ≡ finish g m) ↔ (n % g.keys_count ≡ m % g.keys_count)
finish-eq_iff g n m p = rw (zero_test g.keys_count p) (
  λ e. format_key_inj g (n % g.keys_count) (m % g.keys_count) (cc e),
  λ e. ap (λ i. key (format_key g i)) e,
)
