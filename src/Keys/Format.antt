-- ===== src/Keys/Format.antt =====
-- Keys have the configured length and tell their indices apart.
use Prim.Native.Char.{Char, code}
use Prim.Native.String.{◌++◌, count}
use native.Mathlib.Nat.{pow-suc}
use text.Mathlib.TextLemmas.{
  length-append, length-cons, length-nil, append_cancel_left, nil-append, cons-append,
}
use resp_bench.Prelude.{
  ℕ, zero, suc, ◌+◌, ◌-◌, ◌*◌, ◌/◌, ◌%◌, ◌^◌, ◌<◌, ◌≤◌, String, ◌≡◌, refl, sym, ◌∙◌, ap, ltb, arith,
  Bool-cases, inl, inr,
}
use resp_bench.Prelude.Int.{pos}
use resp_bench.Keys.{KeyGenerator, digit, digits, decimal, zeros, padded, padding_width, format_key}

-- The number that a text of digits stands for, after `acc`.
read : ℕ → String → ℕ
read acc String.[] = acc
read acc (String.◌∷◌ c s) = read (acc * 10 + (code c - 48)) s

read-append : (acc : ℕ) (s t : String) → read acc (s ++ t) ≡ read (read acc s) t
unfolding read
read-append acc String.[] t = ap (read acc) (nil-append t)
read-append acc (String.◌∷◌ c s) t =
    ap (read acc) (cons-append c s t) ∙ read-append (acc * 10 + (code c - 48)) s t

code-digit : (d : ℕ) → d < 10 → code (digit d) ≡ 48 + d
code-digit zero h = refl
code-digit (suc zero) h = refl
code-digit (suc (suc zero)) h = refl
code-digit (suc (suc (suc zero))) h = refl
code-digit (suc (suc (suc (suc zero)))) h = refl
code-digit (suc (suc (suc (suc (suc zero))))) h = refl
code-digit (suc (suc (suc (suc (suc (suc zero)))))) h = refl
code-digit (suc (suc (suc (suc (suc (suc (suc zero))))))) h = refl
code-digit (suc (suc (suc (suc (suc (suc (suc (suc zero)))))))) h = refl
code-digit (suc (suc (suc (suc (suc (suc (suc (suc (suc zero))))))))) h = refl
code-digit (suc (suc (suc (suc (suc (suc (suc (suc (suc (suc n)))))))))) h = absurd (omega arith)

read-digit : (acc d : ℕ) → d < 10 → read acc (String.◌∷◌ (digit d) "") ≡ acc * 10 + d
unfolding read
read-digit acc d h = omega (arith, code-digit d h)

read-digits : (fuel n : ℕ) → n < fuel → read 0 (digits fuel n) ≡ n
unfolding digits
read-digits zero n h = absurd (omega arith)
read-digits (suc fuel) n h = elim (Bool-cases (ltb n 10)) [
  | inl one ↦ rw one (omega (arith, read-digit 0 n (ground arith)))
  | inr more ↦ rw more (
      read-append 0 (digits fuel (n / 10)) (String.◌∷◌ (digit (n % 10)) "")
      ∙ read-digit (read 0 (digits fuel (n / 10))) (n % 10) (omega arith)
      ∙ omega (arith, read-digits fuel (n / 10) (ground arith)))
]

read-zeros : (k : ℕ) → read 0 (zeros k) ≡ 0
unfolding read zeros
read-zeros zero = refl
read-zeros (suc k) = read-zeros k

read-padded : (w n : ℕ) → read 0 (padded w n) ≡ n
unfolding padded
read-padded w n =
    read-append 0 (zeros (w - count (decimal n))) (decimal n)
    ∙ ap (λ a. read a (decimal n)) (read-zeros (w - count (decimal n)))
    ∙ read-digits (n + 1) n (omega arith)

-- Two indices have the same key only if they are equal.
pub format_key_inj : (g : KeyGenerator) (i j : ℕ) → format_key g i ≡ format_key g j → i ≡ j
unfolding format_key
format_key_inj g i j e =
    sym (read-padded (padding_width g) i)
    ∙ ap (read 0) (append_cancel_left g.key_prefix _ _ e)
    ∙ read-padded (padding_width g) j

count-single : (c : Char) → count (String.◌∷◌ c "") ≡ 1
count-single c = omega (arith, length-cons c "", length-nil)

shorter : (n w : ℕ) → 10 ≤ n → n < 10 ^ suc w → (n / 10 < 10 ^ w) × (0 < w)
shorter n zero h k = absurd (omega arith)
shorter n (suc w) h k = (omega (arith, pow-suc 10 (suc w)), omega arith)

count-digits-le : (fuel n w : ℕ) → n < fuel → n < 10 ^ w → 0 < w → count (digits fuel n) ≤ w
unfolding digits
count-digits-le zero n w h k p = absurd (omega arith)
count-digits-le (suc fuel) n zero h k p = absurd (omega arith)
count-digits-le (suc fuel) n (suc w) h k p = elim (Bool-cases (ltb n 10)) [
  | inl one ↦ rw one (omega (arith, count-single (digit n)))
  | inr more ↦ rw more (
      let (lt, room) = shorter n w (ground arith) k in
      omega (
        arith,
        length-append (digits fuel (n / 10)) (String.◌∷◌ (digit (n % 10)) ""),
        count-single (digit (n % 10)),
        count-digits-le fuel (n / 10) w (ground arith) lt room,
      ))
]

count-zeros : (k : ℕ) → count (zeros k) ≡ k
unfolding zeros
count-zeros zero = length-nil
count-zeros (suc k) = omega (arith, length-cons (digit 0) (zeros k), count-zeros k)

count-padded : (w n : ℕ) → n < 10 ^ w → 0 < w → count (padded w n) ≡ w
unfolding padded
count-padded w n h p = omega (
  arith,
  length-append (zeros (w - count (decimal n))) (decimal n),
  count-zeros (w - count (decimal n)),
  count-digits-le (n + 1) n w (omega arith) h p,
)

-- A key has the configured size, where the prefix is shorter than that and the index has no more
-- digits than the room that is left.
pub count-format_key :
    (g : KeyGenerator) (i size : ℕ)
    → g.key_size_bytes ≡ pos size
    → count g.key_prefix < size
    → i < 10 ^ (size - count g.key_prefix)
    → count (format_key g i) ≡ size
unfolding format_key
count-format_key g i size e room h = omega (
  arith,
  length-append g.key_prefix (padded (padding_width g) i),
  count-padded (padding_width g) i (rw width h) (omega (arith, width)),
  width,
)
  where
    width : padding_width g ≡ size - count g.key_prefix
    width = rw e (ground arith)
