-- ===== src/Random/Tests.antt =====
-- Runs of the generator, and the theorems at inputs that meet their hypotheses.
use resp_bench.Prelude.{ℕ, ◌+◌, ◌*◌, ◌%◌, ◌^◌, ◌<◌, ◌≡◌, ◌≢◌, refl, true, arith, ◌↔◌, ◌/◌}
use resp_bench.Prelude.Int.{pos, negsuc, neg_part}
use resp_bench.Prelude.Results.{value_error}
use resp_bench.Random.{
  JavaRandom, raised, spinning, drew, new, accepts, next_bits, next_int, low_bit, to_int32,
}
use resp_bench.Random.Range.{accepts_iff, unbiased, next_int_spins}
use resp_bench.Random.Period.{next_int_total}

abbrev start : JavaRandom
start = record { seed = 42 }

-- java.util.Random(0).nextInt() is -1155484576.
seed_zero : neg_part (to_int32 (next_bits 32 (new (pos 0))).0) ≡ 1155484576
unfolding next_bits new to_int32
seed_zero = refl

bound_must_be_positive : next_int 9 (negsuc 0) start ≡ raised (value_error "bound must be positive")
unfolding next_int
bound_must_be_positive = refl

-- (-1 ^ MULTIPLIER) & MASK
negative_seed : (new (negsuc 0)).seed ≡ 281449761806738
unfolding new
negative_seed = refl

accepts_iff_example : (accepts 1000 7 ≡ true) ↔ (7 / 1000 < 2 ^ 31 / 1000)
accepts_iff_example = accepts_iff 1000 7 (omega arith) (omega arith) (omega arith)

unbiased_example :
    ((2 * 1000 + 7 < 2 ^ 31) × (accepts 1000 (2 * 1000 + 7) ≡ true) × ((2 * 1000 + 7) % 1000 ≡ 7))
    ↔ (2 < 2 ^ 31 / 1000)
unbiased_example = unbiased 1000 7 2 (omega arith) (omega arith)

three_billion : low_bit 3000000000 ≢ 3000000000
unfolding low_bit
three_billion e = absurd (omega arith)

next_int_spins_example : (r' : JavaRandom) × (next_int 100 (pos 3000000000) start ≡ spinning r')
next_int_spins_example =
    next_int_spins 100 3000000000 start (omega arith) (omega arith) three_billion

next_int_total_example :
    (v : ℕ) × (r' : JavaRandom) × (next_int (2 ^ 47 + 1) (pos 1000) start ≡ drew v r') × (v < 1000)
next_int_total_example =
    next_int_total (2 ^ 47 + 1) 1000 start (omega arith) (omega arith) (omega arith)
