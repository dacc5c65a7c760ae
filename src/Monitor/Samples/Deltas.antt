-- ===== src/Monitor/Samples/Deltas.antt =====
-- The changes that the samples of a run measure.
use resp_bench.Prelude.{◌+◌, ◌≡◌, List, [], ◌∷◌}
use resp_bench.Prelude.Int.{ℤ, pos, pos_part, neg_part, ◌+ℤ◌}
use resp_bench.Floats.{Floats}
use resp_bench.Monitor.Samples.{Sample}

abbrev pub sum_deltas : {F : Type 0} → List (Sample F) → ℤ
sum_deltas [] = pos 0
sum_deltas (s ∷ samples) = s.delta_total +ℤ sum_deltas samples

-- A sum of integers, in natural numbers.
abbrev PartsAgree : ℤ → ℤ → ℤ → Type 0
PartsAgree a b c = pos_part c + (neg_part a + neg_part b) ≡ neg_part c + (pos_part a + pos_part b)
