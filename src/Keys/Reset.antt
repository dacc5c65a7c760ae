-- ===== src/Keys/Reset.antt =====
-- `reset` starts a generator's stream anew.
use resp_bench.Prelude.{ℕ, zero, suc, ◌≡◌, refl, ◌∙◌, Bool-cases, inl, inr}
use resp_bench.Prelude.Int.{ℤ, pos}
use resp_bench.Config.Keyspace.{KeyspaceConfig, is_sequential_int}
use resp_bench.Keys.{KeyGenerator, Counter, create_with_seed, next_key, reset, from_draw}
use resp_bench.Random.{Draw, raised, spinning, drew, next_int}
use resp_bench.Keys.Streams.{next_key-sequential, next_key-uniform}

-- The generator after `n` draws.
pub after_draws : ℕ → KeyGenerator → Counter → ℕ → KeyGenerator
after_draws fuel g c zero = g
after_draws fuel g c (suc n) = let r = next_key fuel g c in after_draws fuel r.1 r.2 n

reset-from_draw :
    (g : KeyGenerator) (c d : Counter) (r : Draw) → reset (from_draw g c r).1 d ≡ reset g d
unfolding reset
reset-from_draw g c d (raised e) = refl
reset-from_draw g c d (spinning r) = refl
reset-from_draw g c d (drew i r) = refl

reset-next_key :
    (fuel : ℕ) (g : KeyGenerator) (c d : Counter) → reset (next_key fuel g c).1 d ≡ reset g d
reset-next_key fuel g c d = elim (Bool-cases (is_sequential_int g.config)) [
  | inl e ↦ rw (next_key-sequential fuel g c e)
  | inr e ↦
      rw (next_key-uniform fuel g c e)
        (reset-from_draw g c d (next_int fuel (pos g.keys_count) g.random))
]

reset-after_draws_step :
    (fuel : ℕ) (g : KeyGenerator) (c d : Counter) (n : ℕ)
    → reset (after_draws fuel g c n) d ≡ reset g d
unfolding after_draws
reset-after_draws_step fuel g c d zero = refl
reset-after_draws_step fuel g c d (suc n) =
    let r = next_key fuel g c in reset-after_draws_step fuel r.1 r.2 d n ∙ reset-next_key fuel g c d

-- `reset` after any number of draws gives back the generator as it was made, and the counter at 0.
pub reset-after_draws :
    (fuel : ℕ) (config : KeyspaceConfig) (seed : ℤ) (c d : Counter) (n : ℕ)
    → reset (after_draws fuel (create_with_seed config seed) c n) d
      ≡ (create_with_seed config seed, 0)
reset-after_draws fuel config seed c d n =
    reset-after_draws_step fuel (create_with_seed config seed) c d n
    ∙ (unfold reset create_with_seed in refl)
