-- ===== src/Random/Range.antt =====
-- Which draws the rejection loop keeps, and the range of the result.
use native.Mathlib.Nat.{mod-lt, mod-eq_of_lt}
use resp_bench.Prelude.{
  ℕ, zero, suc, ◌+◌, ◌-◌, ◌*◌, ◌/◌, ◌%◌, ◌^◌, ◌≤◌, ◌<◌, ◌≡◌, ◌≢◌, refl, ◌↔◌, true, false, arith,
  ◌==◌, if◌then◌else◌,
}
use resp_bench.Prelude.Int.{pos}
use resp_bench.Random.{
  JavaRandom, spinning, drew, advance, next_bits, accepts, reject_loop, low_bit, next_int_pos,
  next_int,
}

quotient_parts : (b x : ℕ) → 0 < b → x ≡ x / b * b + x % b
quotient_parts b x p = grind arith

last_whole : (b q : ℕ) → 0 < b → (q * b + b ≤ 2 ^ 31) ↔ (q < 2 ^ 31 / b)
last_whole b q p = (λ h. grind arith, λ h. grind arith)

-- The test without the detour through 32 signed bits.
accepts_as_order :
    (b x : ℕ)
    → 0 < b
    → x - x % b + (b - 1) < 2 ^ 32
    → (accepts b x ≡ true) ↔ (x - x % b + b ≤ 2 ^ 31)
unfolding accepts
accepts_as_order b x p fits = (λ h. ground arith, λ h. ground arith)

-- A draw of 31 bits is kept exactly if its quotient by the bound is one of the 2 ^ 31 / bound full
-- ones, for a bound of at most 2 ^ 31.
pub accepts_iff :
    (bound bits : ℕ)
    → 0 < bound
    → bound ≤ 2 ^ 31
    → bits < 2 ^ 31
    → (accepts bound bits ≡ true) ↔ (bits / bound < 2 ^ 31 / bound)
accepts_iff b x p le lt =
    let parts = quotient_parts b x p in
    let order = accepts_as_order b x p (omega (arith, parts)) in
    let whole = last_whole b (x / b) p in
    (λ h. whole.0 (omega (arith, order.0 h, parts)), λ h. order.1 (omega (arith, whole.1 h, parts)))

quotient_of_sum : (b q v : ℕ) → v < b → (q * b + v) / b ≡ q
quotient_of_sum b q v h = grind arith

remainder_of_sum : (b q v : ℕ) → v < b → (q * b + v) % b ≡ v
remainder_of_sum b q v h = grind arith

below_cut : (b q v : ℕ) → v < b → q < 2 ^ 31 / b → q * b + v < 2 ^ 31
below_cut b q v h k = omega (arith, (last_whole b q (omega arith)).1 k)

-- No modulo bias: whatever the value, the kept draws that give it are those of the 2 ^ 31 / bound
-- quotients, the same number for each value below the bound.
pub unbiased :
    (bound v q : ℕ)
    → v < bound
    → bound ≤ 2 ^ 31
    → ((q * bound + v < 2 ^ 31)
        × (accepts bound (q * bound + v) ≡ true)
        × ((q * bound + v) % bound ≡ v))
      ↔ (q < 2 ^ 31 / bound)
unbiased b v q h le = (
  λ k. rw (quotient_of_sum b q v h) at ((accepts_iff b (q * b + v) (omega arith) le k.0).0 k.1),
  λ k.
      let fits = below_cut b q v h k in
      (
        fits,
        (accepts_iff b (q * b + v) (omega arith) le fits).1 (rw (quotient_of_sum b q v h) k),
        remainder_of_sum b q v h,
      ),
)

rejects_of_high : (b x : ℕ) → 2 ^ 31 < b → b ≤ 2 ^ 32 → x < 2 ^ 31 → accepts b x ≡ false
unfolding accepts
rejects_of_high b x h le lt =
    let own : x % b ≡ x = mod-eq_of_lt (omega arith) in rw own (ground arith)

bits_below : (r : JavaRandom) → (next_bits 31 r).0 < 2 ^ 31
unfolding next_bits
bits_below r = omega arith

abbrev pub bits_of : JavaRandom → ℕ
bits_of r = (next_bits 31 r).0

-- One round of the loop, its parts shut.
pub reject_loop_step :
    (fuel b : ℕ) (r : JavaRandom)
    → reject_loop (suc fuel) b r ≡ (
        if accepts b (bits_of r)
        then drew (bits_of r % b) (advance r)
        else reject_loop fuel b (advance r))
unfolding reject_loop
reject_loop_step fuel b r = refl

reject_loop-lt :
    (fuel b v : ℕ) (r r' : JavaRandom) → 0 < b → reject_loop fuel b r ≡ drew v r' → v < b
reject_loop-lt zero b v r r' p e = unfold reject_loop in cc e
reject_loop-lt (suc fuel) b v r r' p e = ground (
  arith,
  reject_loop_step fuel b r,
  mod-lt (bits_of r) p,
  reject_loop-lt fuel b v (advance r) r' p,
)

fast_path-lt : (b x : ℕ) → 0 < b → x < 2 ^ 31 → b * x / 2 ^ 31 < b
fast_path-lt b x p h = grind arith

-- `next_int` of a positive bound, its parts shut.
pub next_int_cases :
    (fuel b : ℕ) (r : JavaRandom) (p : 0 < b)
    → next_int fuel (pos b) r
      ≡ (if low_bit b == b then drew (b * bits_of r / 2 ^ 31) (advance r) else reject_loop fuel b r)
unfolding next_int next_int_pos
next_int_cases fuel b r p = ground arith

-- Every number that `next_int` returns is below the bound, on the fast path and in the loop.
pub next_int-lt :
    (fuel bound v : ℕ) (r r' : JavaRandom) → next_int fuel (pos bound) r ≡ drew v r' → v < bound
unfolding next_int next_int_pos
next_int-lt fuel zero v r r' e = cc e
next_int-lt fuel (suc b) v r r' e = ground (
  arith,
  fast_path-lt (suc b) (bits_of r) (omega arith) (bits_below r),
  reject_loop-lt fuel (suc b) v r r' (omega arith),
)

reject_loop_spins :
    (fuel b : ℕ) (r : JavaRandom)
    → 2 ^ 31 < b
    → b ≤ 2 ^ 32
    → (r' : JavaRandom) × (reject_loop fuel b r ≡ spinning r')
reject_loop_spins zero b r h le = unfold reject_loop in (r, refl)
reject_loop_spins (suc fuel) b r h le =
    let (r', e) = reject_loop_spins fuel b (advance r) h le in
    (r', rw (reject_loop_step, rejects_of_high b (bits_of r) h le (bits_below r)) e)

-- For a bound above 2 ^ 31 and up to 2 ^ 32 that is no power of two the loop rejects every draw:
-- however much fuel is given, `next_int` returns nothing.
pub next_int_spins :
    (fuel bound : ℕ) (r : JavaRandom)
    → 2 ^ 31 < bound
    → bound ≤ 2 ^ 32
    → low_bit bound ≢ bound
    → (r' : JavaRandom) × (next_int fuel (pos bound) r ≡ spinning r')
unfolding next_int next_int_pos
next_int_spins fuel b r h le odd =
    let (r', e) = reject_loop_spins fuel b r h le in (r', ground (arith, e))
