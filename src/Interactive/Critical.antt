-- ===== src/Interactive/Critical.antt =====
-- The critical value of Grubbs' test (scripts/generate_interactive_graphs.py).
use resp_bench.Prelude.{ℕ, ◌-◌, ◌*◌, String, List, [], ◌∷◌, ltb, if◌then◌else◌}
use resp_bench.Prelude.Int.{pos}
use resp_bench.Floats.{Floats}
use resp_bench.Interactive.Numbers.{Numeric}

module _ (fl : Floats) (num : Numeric fl) where
  abbrev whole_number : ℕ → fl.Float
  whole_number n = fl.of_int (pos n)

  -- `((c[0]*x + c[1])*x + …)` from what is computed so far
  abbrev horner_from : fl.Float → fl.Float → List String → fl.Float
  horner_from x acc [] = acc
  horner_from x acc (c ∷ cs) = horner_from x (fl.add (num.mul acc x) (num.literal c)) cs

  abbrev horner : fl.Float → String → List String → fl.Float
  horner x c cs = horner_from x (num.literal c) cs

  abbrev tail_numerator : fl.Float → fl.Float
  tail_numerator q = horner q "-7.784894002430293e-03" (
      "-3.223964580411365e-01" ∷ "-2.400758277161838e+00" ∷ "-2.549732539343734e+00"
      ∷ "4.374664141464968e+00" ∷ "2.938163982698783e+00" ∷ [])

  abbrev tail_denominator : fl.Float → fl.Float
  tail_denominator q =
      horner q "7.784695709041462e-03"
        ("3.224671290700398e-01" ∷ "2.445134137142996e+00" ∷ "3.754408661907416e+00" ∷ "1.0" ∷ [])

  abbrev middle_numerator : fl.Float → fl.Float
  middle_numerator r = horner r "-3.969683028665376e+01" (
      "2.209460984245205e+02" ∷ "-2.759285104469687e+02" ∷ "1.383577518672690e+02"
      ∷ "-3.066479806614716e+01" ∷ "2.506628277459239e+00" ∷ [])

  abbrev middle_denominator : fl.Float → fl.Float
  middle_denominator r = horner r "-5.447609879822406e+01" (
      "1.615858368580409e+02" ∷ "-1.556989798598866e+02" ∷ "6.680131188771972e+01"
      ∷ "-1.328068155288572e+01" ∷ "1.0" ∷ [])

  -- `math.sqrt(-2.0 * math.log(p))`
  abbrev tail_root : fl.Float → fl.Float
  tail_root p = num.sqrt (num.mul (num.literal "-2.0") (num.log p))

  unfoldable norm_ppf : fl.Float → fl.Float
  norm_ppf p =
      let p_low = num.literal "0.02425" in
      let p_high = num.sub (num.literal "1.0") p_low in
      if num.ltb p p_low
      then (let q = tail_root p in fl.div (tail_numerator q) (tail_denominator q))
      else if fl.leb p p_high
      then (let q = num.sub p (num.literal "0.5") in
          let r = num.mul q q in fl.div (num.mul (middle_numerator r) q) (middle_denominator r))
      else (let q = tail_root (num.sub (num.literal "1.0") p) in
          fl.div (num.neg (tail_numerator q)) (tail_denominator q))

  abbrev scaled : ℕ → fl.Float → fl.Float
  scaled k x = num.mul (whole_number k) x

  unfoldable t_critical_two_sided : ℕ → fl.Float → fl.Float
  unfolding norm_ppf
  t_critical_two_sided df alpha =
      let p = num.sub (num.literal "1.0") (fl.div alpha (num.literal "2.0")) in
      let z = norm_ppf p in
      let g1 = fl.div (fl.add (num.pow z 3) z) (num.literal "4.0") in
      let g2 =
        fl.div (fl.add (fl.add (scaled 5 (num.pow z 5)) (scaled 16 (num.pow z 3))) (scaled 3 z))
          (num.literal "96.0") in
      let g3 =
        fl.div
          (num.sub
            (fl.add (fl.add (scaled 3 (num.pow z 7)) (scaled 19 (num.pow z 5)))
              (scaled 17 (num.pow z 3)))
            (scaled 15 z))
          (num.literal "384.0") in
      fl.add (fl.add (fl.add z (fl.div g1 (whole_number df))) (fl.div g2 (whole_number (df * df))))
        (fl.div g3 (whole_number (df * df * df)))

  unfoldable pub grubbs_critical_value : ℕ → fl.Float → fl.Float
  unfolding t_critical_two_sided
  grubbs_critical_value n alpha =
      if ltb n 3
      then num.infinity
      else (let t_crit =
            t_critical_two_sided (n - 2)
              (fl.div alpha (num.mul (num.literal "2.0") (whole_number n))) in
          let squared = num.pow t_crit 2 in
          num.mul (fl.div (whole_number (n - 1)) (num.sqrt (whole_number n)))
            (num.sqrt (fl.div squared (fl.add (whole_number (n - 2)) squared))))
