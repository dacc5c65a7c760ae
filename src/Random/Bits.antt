-- ===== src/Random/Bits.antt =====
-- The fast path of `next_int` is taken exactly for the powers of two.
use Prim.Native.Nat.{min, bit_and, digits, bit_and-bitwise}
use native.Mathlib.Nat.{pow-suc, one-le-pow}
use resp_bench.Prelude.{
  ℕ, zero, suc, ◌+◌, ◌-◌, ◌*◌, ◌/◌, ◌%◌, ◌^◌, ◌≤◌, ◌<◌, ◌≡◌, ◌≢◌, refl, ◌↔◌, ◌⊎◌, inl, inr, arith,
}
use resp_bench.Random.{low_bit}

-- The digits of a conjunction, with one unit of fuel for each digit.
abbrev conjunction : ℕ → ℕ → ℕ → ℕ
conjunction fuel a b = digits (λ y. zero) min fuel a b

more_fuel : (fuel a b : ℕ) → a ≤ fuel → conjunction (suc fuel) a b ≡ conjunction fuel a b
more_fuel zero a b h = let none_left : a ≡ 0 = omega arith in rw none_left refl
more_fuel (suc fuel) zero b h = refl
more_fuel (suc fuel) (suc a) b h = omega (arith, more_fuel fuel (suc a / 2) (b / 2) (omega arith))

any_fuel :
    (fuel least a b : ℕ) → a ≤ least → least ≤ fuel → conjunction fuel a b ≡ conjunction least a b
any_fuel zero least a b low high = let least_zero : least ≡ 0 = omega arith in rw least_zero refl
any_fuel (suc fuel) least a b low high = elim (last_or_before least) [
  | inl same ↦ rw same refl
  | inr before ↦
      omega (arith, more_fuel fuel a b (omega arith), any_fuel fuel least a b low (omega arith))
]
  where
    last_or_before : (n : ℕ) → (n ≡ suc fuel) ⊎ (n ≢ suc fuel)
    last_or_before n = ground arith

-- A conjunction from that of the halves.
bit_and_halves : (x y : ℕ) → bit_and x y ≡ min (x % 2) (y % 2) + 2 * bit_and (x / 2) (y / 2)
bit_and_halves zero y = omega (arith, bit_and-bitwise 0 y, bit_and-bitwise 0 (y / 2))
bit_and_halves (suc x) y =
    let rest = any_fuel x (suc x / 2) (suc x / 2) (y / 2) (omega arith) (omega arith) in
    omega (arith, rest, bit_and-bitwise (suc x / 2) (y / 2), bit_and-bitwise (suc x) y)

bit_and_self : (limit x : ℕ) → x ≤ limit → bit_and x x ≡ x
bit_and_self zero x below = let x_zero : x ≡ 0 = omega arith in rw x_zero refl
bit_and_self (suc limit) zero below = refl
bit_and_self (suc limit) (suc x) below =
    let half = bit_and_self limit (suc x / 2) (omega arith) in
    omega (arith, half, bit_and_halves (suc x) (suc x))

halves : (a : ℕ) → 0 < a → a % 2 ≡ 0 → (a - 1) / 2 ≡ a / 2 - 1
halves a h e = omega arith

-- A positive number that shares no bit with its predecessor is a power of two.
power_of_disjoint : (n b : ℕ) → b ≤ n → 0 < b → bit_and b (b - 1) ≡ 0 → (k : ℕ) × (b ≡ 2 ^ k)
power_of_disjoint zero b h p e = absurd (omega arith)
power_of_disjoint (suc n) b h p e = elim (parity b) [
  | inl even ↦
      let below : bit_and (b / 2) (b / 2 - 1) ≡ 0 =
        omega (arith, bit_and_halves b (b - 1), ap_half b even p) in
      let (k, q) = power_of_disjoint n (b / 2) (omega arith) (omega arith) below in
      (suc k, omega (arith, pow-suc 2 k))
  | inr odd ↦ (
    0,
    omega (
      arith,
      bit_and_halves b (b - 1),
      same_half b odd,
      bit_and_self (b / 2) (b / 2) (omega arith),
    ),
  )
]
  where
    parity : (a : ℕ) → (a % 2 ≡ 0) ⊎ (a % 2 ≡ 1)
    parity a = omega arith

    ap_half :
        (a : ℕ) → a % 2 ≡ 0 → 0 < a → bit_and (a / 2) ((a - 1) / 2) ≡ bit_and (a / 2) (a / 2 - 1)
    ap_half a e q = cc (halves a q e)

    same_half : (a : ℕ) → a % 2 ≡ 1 → bit_and (a / 2) ((a - 1) / 2) ≡ bit_and (a / 2) (a / 2)
    same_half a e = let f : (a - 1) / 2 ≡ a / 2 = omega arith in cc f

disjoint_of_power : (k : ℕ) → bit_and (2 ^ k) (2 ^ k - 1) ≡ 0
disjoint_of_power zero = refl
disjoint_of_power (suc k) =
    let half : 2 ^ suc k / 2 ≡ 2 ^ k = omega (arith, pow-suc 2 k) in
    let less : (2 ^ suc k - 1) / 2 ≡ 2 ^ k - 1 = omega (arith, pow-suc 2 k, one-le-pow k 2) in
    let shifted : bit_and (2 ^ suc k / 2) ((2 ^ suc k - 1) / 2) ≡ bit_and (2 ^ k) (2 ^ k - 1) =
      cc (half, less) in
    omega
      (arith, bit_and_halves (2 ^ suc k) (2 ^ suc k - 1), pow-suc 2 k, shifted, disjoint_of_power k)

-- The test `(bound & -bound) == bound` of a positive bound holds exactly if the bound is a power of two.
pub low_bit-eq_iff : (b : ℕ) → 0 < b → (low_bit b ≡ b) ↔ ((k : ℕ) × (b ≡ 2 ^ k))
unfolding low_bit
low_bit-eq_iff b p = (
  λ e. power_of_disjoint b b (omega arith) p (omega arith),
  λ (k, e). let d : bit_and b (b - 1) ≡ 0 = cc (e, disjoint_of_power k) in omega arith,
)
