-- ===== src/Floats/Sample.antt =====
-- Floats that happen to be whole, for the tests.
use resp_bench.Prelude.{◌/◌, List, [], ◌∷◌}
use resp_bench.Prelude.Int.{ℤ, pos, ◌+ℤ◌, pos_part, leb_ℤ, eqb_ℤ}
use resp_bench.Floats.{Floats}

abbrev total : List ℤ → ℤ
total [] = pos 0
total (x ∷ xs) = x +ℤ total xs

abbrev pub whole : Floats
whole = record {
  Float = ℤ;
  of_int = λ n. n;
  add = λ a b. a +ℤ b;
  div = λ a b. pos (pos_part a / pos_part b);
  sum = total;
  leb = leb_ℤ;
  eqb = eqb_ℤ;
}
