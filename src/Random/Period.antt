-- ===== src/Random/Period.antt =====
-- The generator's state does not stay in the upper half: the rejection loop ends.
use native.Mathlib.Nat.{pow-suc}
use mathlib.Core.Path.{subst₂}
use native.Mathlib.Decide.{dec_lt}
use resp_bench.Prelude.{
  ℕ, zero, suc, ◌+◌, ◌*◌, ◌/◌, ◌%◌, ◌^◌, ◌≤◌, ◌<◌, ◌≡◌, refl, ◌∙◌, ap, true, arith, inl, inr,
  Bool-cases, ◌==◌,
}
use resp_bench.Prelude.Int.{pos}
use resp_bench.Random.{
  JavaRandom, drew, advance, next_bits, accepts, reject_loop, low_bit, next_int, multiplier, addend,
  mask48,
}
use resp_bench.Random.Range.{accepts_iff, bits_of, reject_loop_step, next_int-lt, next_int_cases}

-- `n` steps of the recurrence, before the mask.
iterate : ℕ → ℕ → ℕ
iterate zero x = x
iterate (suc n) x = iterate n (x * multiplier + addend)

iterate-add : (m n x : ℕ) → iterate (m + n) x ≡ iterate n (iterate m x)
unfolding iterate
iterate-add zero n x = let e : 0 + n ≡ n = omega arith in ap (λ k. iterate k x) e
iterate-add (suc m) n x =
    let e : suc m + n ≡ suc (m + n) = omega arith in
    ap (λ k. iterate k x) e ∙ iterate-add m n (x * multiplier + addend)

-- `n` steps of the generator.
after : ℕ → JavaRandom → JavaRandom
after zero r = r
after (suc n) r = after n (advance r)

masked_step : (x : ℕ) → mask48 (mask48 x * multiplier + addend) ≡ mask48 (x * multiplier + addend)
masked_step x = omega arith

masked_iterate : (n x y : ℕ) → mask48 x ≡ mask48 y → mask48 (iterate n x) ≡ mask48 (iterate n y)
unfolding iterate
masked_iterate zero x y e = e
masked_iterate (suc n) x y e =
    masked_iterate n (x * multiplier + addend) (y * multiplier + addend) (omega arith)

seed-after :
    (n : ℕ) (r : JavaRandom) → r.seed < 2 ^ 48 → (after n r).seed ≡ mask48 (iterate n r.seed)
unfolding after iterate advance
seed-after zero r h = omega arith
seed-after (suc n) r h =
    seed-after n (advance r) (omega arith)
    ∙ masked_iterate n (advance r).seed (r.seed * multiplier + addend) (omega arith)

-- `2 ^ k` steps are x ↦ (1 + 4 2^k u) x + 2^k (1 + 2 v).
record Doubling (p n : ℕ) : Type 0 where
  u : ℕ
  v : ℕ
  acts : (x : ℕ) → iterate n x ≡ x + 4 * p * u * x + p + 2 * p * v

double : (p n : ℕ) → Doubling p n → Doubling (2 * p) (n + n)
double p n d = record {
  u = d.u + 2 * p * d.u * d.u;
  v = p * d.u + d.v + 2 * p * d.u * d.v;
  acts = λ x.
      rw (iterate-add n n x, d.acts x, d.acts (x + 4 * p * d.u * x + p + 2 * p * d.v))
        (omega arith);
}

doubling : (k : ℕ) → Doubling (2 ^ k) (2 ^ k)
doubling zero = record { u = 6303725979; v = 5; acts = λ x. unfold iterate in omega arith }
doubling (suc k) =
    subst₂ Doubling (omega (arith, pow-suc 2 k)) (omega (arith, pow-suc 2 k))
      (double (2 ^ k) (2 ^ k) (doubling k))

-- Half a period flips the top bit of the state and changes no other.
half_period :
    (n : ℕ) (r : JavaRandom)
    → n ≡ 2 ^ 47
    → r.seed < 2 ^ 48
    → (after n r).seed ≡ mask48 (r.seed + 2 ^ 47)
half_period n r e h = seed-after n r h ∙ flipped (doubling 47)
  where
    flipped : Doubling (2 ^ 47) (2 ^ 47) → mask48 (iterate n r.seed) ≡ mask48 (r.seed + 2 ^ 47)
    flipped d = rw (e, d.acts r.seed) (omega arith)

after-advance : (n : ℕ) (r : JavaRandom) → after n (advance r) ≡ advance (after n r)
unfolding after
after-advance zero r = refl
after-advance (suc n) r = after-advance n (advance r)

bits-seed : (r : JavaRandom) → bits_of r ≡ (advance r).seed / 2 ^ 17
unfolding next_bits
bits-seed r = refl

bits-after : (n : ℕ) (r : JavaRandom) → bits_of (after n r) ≡ (after n (advance r)).seed / 2 ^ 17
bits-after n r = rw after-advance (bits-seed (after n r))

bits-lt : (r : JavaRandom) → bits_of r < 2 ^ 31
unfolding next_bits
bits-lt r = omega arith

seed-advance-lt : (r : JavaRandom) → (advance r).seed < 2 ^ 48
unfolding advance
seed-advance-lt r = omega arith

-- More than half of the draws are kept, the lower ones among them.
kept_half : (b : ℕ) → 0 < b → b ≤ 2 ^ 31 → 2 ^ 30 < 2 ^ 31 / b * b
kept_half b p le = grind arith

low_quotient : (b x q : ℕ) → 0 < b → x < q * b → x / b < q
low_quotient b x q p h = grind arith

accepts_low : (b x : ℕ) → 0 < b → b ≤ 2 ^ 31 → x < 2 ^ 30 → accepts b x ≡ true
accepts_low b x p le h =
    (accepts_iff b x p le (omega arith)).1
      (low_quotient b x (2 ^ 31 / b) p (omega (arith, kept_half b p le)))

-- The loop ends at the first kept draw at the latest.
reject_loop_ends :
    (j fuel b : ℕ) (r : JavaRandom)
    → j < fuel
    → accepts b (bits_of (after j r)) ≡ true
    → (v : ℕ) × (r' : JavaRandom) × (reject_loop fuel b r ≡ drew v r')
reject_loop_ends j zero b r h e = absurd (omega arith)
reject_loop_ends zero (suc fuel) b r h e =
    let kept : accepts b (bits_of r) ≡ true = unfold after in e in
    (bits_of r % b, advance r, rw (reject_loop_step, kept))
reject_loop_ends (suc j) (suc fuel) b r h e = elim (Bool-cases (accepts b (bits_of r))) [
  | inl kept ↦ (bits_of r % b, advance r, rw (reject_loop_step, kept))
  | inr lost ↦
      let (v, r', rest) = reject_loop_ends j fuel b (advance r) (omega arith) (unfold after in e) in
      (v, r', rw (reject_loop_step, lost) rest)
]

-- A draw from the upper half is followed, half a period later, by one from the lower half.
kept_later :
    (b n : ℕ) (r : JavaRandom)
    → 0 < b
    → b ≤ 2 ^ 31
    → n ≡ 2 ^ 47
    → 2 ^ 30 ≤ bits_of r
    → accepts b (bits_of (after n r)) ≡ true
kept_later b n r p le e high =
    accepts_low b (bits_of (after n r)) p le
      (omega (arith, bits-after n r, flip, bits-seed r, seed-advance-lt r))
  where
    flip : (after n (advance r)).seed ≡ mask48 ((advance r).seed + 2 ^ 47)
    flip = half_period n (advance r) e (seed-advance-lt r)

reject_loop_total :
    (fuel b n : ℕ) (r : JavaRandom)
    → 0 < b
    → b ≤ 2 ^ 31
    → n ≡ 2 ^ 47
    → n < fuel
    → (v : ℕ) × (r' : JavaRandom) × (reject_loop fuel b r ≡ drew v r')
reject_loop_total fuel b n r p le e enough = elim (dec_lt (bits_of r) (2 ^ 30)) [
  | yes low ↦
      reject_loop_ends 0 fuel b r (omega arith) (unfold after in accepts_low b (bits_of r) p le low)
  | no high ↦ reject_loop_ends n fuel b r enough (kept_later b n r p le e (omega arith))
]

-- With fuel for more than 2 ^ 47 draws `next_int` returns a number below the bound, from every state
-- and for every positive bound up to 2 ^ 31.
pub next_int_total :
    (fuel bound : ℕ) (r : JavaRandom)
    → 2 ^ 47 < fuel
    → 0 < bound
    → bound ≤ 2 ^ 31
    → (v : ℕ) × (r' : JavaRandom) × (next_int fuel (pos bound) r ≡ drew v r') × (v < bound)
next_int_total fuel b r enough p le =
    let (v, r', e) = returns in (v, r', e, next_int-lt fuel b v r r' e)
  where
    loop : (v : ℕ) × (r' : JavaRandom) × (reject_loop fuel b r ≡ drew v r')
    loop = reject_loop_total fuel b (2 ^ 47) r p le refl enough

    returns : (v : ℕ) × (r' : JavaRandom) × (next_int fuel (pos b) r ≡ drew v r')
    returns = elim (Bool-cases (low_bit b == b)) [
      | inl power ↦ (b * bits_of r / 2 ^ 31, advance r, rw (next_int_cases, power))
      | inr other ↦ let (v, r', e) = loop in (v, r', rw (next_int_cases, other) e)
    ]
