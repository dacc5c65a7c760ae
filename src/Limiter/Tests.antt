-- ===== src/Limiter/Tests.antt =====
-- The limiter at a rate of four a second.
use resp_bench.Prelude.{ℕ, ◌+◌, ◌*◌, ◌≤◌, ◌≡◌, refl, List, [], ◌∷◌}
use resp_bench.Limiter.{RateLimiter, new, acquire}
use resp_bench.Limiter.Rate.{grants, grants-due}

abbrev four : RateLimiter
four = record { rate_per_second = 4; interval_nanos = 250_000_000; next_allowed_nanos = 1000 }

made : new 4 1000 ≡ four
unfolding new
made = refl

abbrev clock : List ℕ
clock = 1000 ∷ 1500 ∷ 250_001_000 ∷ 250_001_001 ∷ 500_002_000 ∷ []

three_grants : grants 3 four clock ≡ 1000 ∷ 250_001_000 ∷ 500_002_000 ∷ []
unfolding grants acquire
three_grants = refl

grants-due_example : 1000 + 2 * 250_000_000 ≤ 500_002_000
unfolding grants acquire
grants-due_example = grants-due 3 four clock 2 500_002_000 refl
