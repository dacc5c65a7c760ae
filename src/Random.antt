-- ===== src/Random.antt =====
-- The port of java.util.Random (python/src/resp_bench/engine/java_random.py).
-- A seed is a number below 2 ^ 48. The rejection loop takes fuel, one unit for each draw, and says
-- `spinning` when the fuel runs out.
pub mod Range
pub mod Period
pub mod Bits
pub mod Tests
use Prim.Native.Nat.{bit_and, bit_xor}
use resp_bench.Prelude.{ℕ, zero, suc, ◌+◌, ◌-◌, ◌*◌, ◌/◌, ◌%◌, ◌^◌, Bool, ◌==◌, leb, if◌then◌else◌}
use resp_bench.Prelude.Int.{ℤ, pos, negsuc, sub_ℕ, leb_ℤ, pos_part}
use resp_bench.Prelude.Results.{Exc, value_error}

abbrev pub multiplier : ℕ
multiplier = 0x5DEECE66D

abbrev pub addend : ℕ
addend = 0xB

-- `& MASK`, for MASK = 2 ^ 48 - 1
abbrev pub mask48 : ℕ → ℕ
mask48 n = n % 2 ^ 48

pub record JavaRandom : Type 0 where
  pub seed : ℕ

-- The low 32 bits, read as a signed number.
unfoldable pub to_int32 : ℕ → ℤ
to_int32 value =
    let low = value % 2 ^ 32 in if leb (2 ^ 31) low then sub_ℕ low (2 ^ 32) else pos low

-- `(seed ^ MULTIPLIER) & MASK`. The low 48 bits of a negative integer, in two's complement, are
-- those of 2 ^ 48 - 1 - n for -(n + 1); the mask is taken before the xor, since MULTIPLIER fits it.
unfoldable pub initial_scramble : ℤ → ℕ
initial_scramble (pos n) = bit_xor (mask48 n) multiplier
initial_scramble (negsuc n) = bit_xor (2 ^ 48 - 1 - mask48 n) multiplier

unfoldable pub new : ℤ → JavaRandom
unfolding initial_scramble
new seed = record { seed = initial_scramble seed }

unfoldable pub set_seed : JavaRandom → ℤ → JavaRandom
unfolding initial_scramble
set_seed r seed = record r { seed = initial_scramble seed }

-- The state after a draw.
unfoldable pub advance : JavaRandom → JavaRandom
advance r = record r { seed = mask48 (r.seed * multiplier + addend) }

unfoldable pub next_bits : ℕ → JavaRandom → ℕ × JavaRandom
unfolding advance
next_bits bits r = let r' = advance r in (r'.seed / 2 ^ (48 - bits), r')

-- `bound & -bound` of a positive bound: -b is ~(b - 1), and x & ~y is x less the bits x & y.
unfoldable pub low_bit : ℕ → ℕ
low_bit bound = bound - bit_and bound (bound - 1)

-- The test of the rejection loop.
unfoldable pub accepts : ℕ → ℕ → Bool
unfolding to_int32
accepts bound bits = leb_ℤ (pos 0) (to_int32 (bits - bits % bound + (bound - 1)))

pub data Draw : Type 0 where
  raised : Exc → Draw
  spinning : JavaRandom → Draw
  drew : ℕ → JavaRandom → Draw

unfoldable pub reject_loop : ℕ → ℕ → JavaRandom → Draw
unfolding next_bits accepts
reject_loop zero bound r = spinning r
reject_loop (suc fuel) bound r =
    let (bits, r') = next_bits 31 r in
    let again = reject_loop fuel bound r' in
    if accepts bound bits then drew (bits % bound) r' else again

unfoldable pub next_int_pos : ℕ → ℕ → JavaRandom → Draw
unfolding reject_loop low_bit next_bits
next_int_pos fuel bound r =
    let (bits, r') = next_bits 31 r in
    if low_bit bound == bound then drew (bound * bits / 2 ^ 31) r' else reject_loop fuel bound r

-- `next_int(bound)`
unfoldable pub next_int : ℕ → ℤ → JavaRandom → Draw
unfolding next_int_pos
next_int fuel bound r =
    if leb_ℤ bound (pos 0)
    then raised (value_error "bound must be positive")
    else next_int_pos fuel (pos_part bound) r
