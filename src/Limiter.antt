-- ===== src/Limiter.antt =====
-- The rate limiter (python/src/resp_bench/engine/rate_limiter.py). Times are nanoseconds of the
-- monotonic clock. `acquire` takes the readings of the clock that its loop makes, one for each round;
-- between two of them it sleeps for `wait` nanoseconds. None means that it still waits.
pub mod Rate
pub mod Tests
use resp_bench.Prelude.{
  ℕ, zero, suc, ◌+◌, ◌-◌, ◌/◌, ◌*◌, Bool, leb, if◌then◌else◌, Option, none, some, List, [], ◌∷◌,
}
use resp_bench.Prelude.Int.{ℤ, pos, leb_ℤ, pos_part}

abbrev pub nanos_per_second : ℕ
nanos_per_second = 1_000_000_000

pub record RateLimiter : Type 0 where
  pub rate_per_second : ℕ
  pub interval_nanos : ℕ
  pub next_allowed_nanos : ℕ

-- `RateLimiter(rate)` of a positive rate, made when the clock reads `now`.
unfoldable pub new : ℕ → ℕ → RateLimiter
new rate now = record {
  rate_per_second = rate;
  interval_nanos = nanos_per_second / rate;
  next_allowed_nanos = now;
}

unfoldable pub create : ℤ → ℕ → Option RateLimiter
unfolding new
create rate now = if leb_ℤ rate (pos 0) then none else some (new (pos_part rate) now)

-- What the loop sleeps after a reading that comes too early.
unfoldable pub wait : RateLimiter → ℕ → ℕ
wait l now = l.next_allowed_nanos - now

pub record Grant : Type 0 where
  pub at : ℕ
  pub limiter : RateLimiter
  pub later : List ℕ

abbrev pub advanced : RateLimiter → RateLimiter
advanced l = record l { next_allowed_nanos = l.next_allowed_nanos + l.interval_nanos }

unfoldable pub acquire : RateLimiter → List ℕ → Option Grant
acquire l [] = none
acquire l (now ∷ later) =
    let again = acquire l later in
    if leb l.next_allowed_nanos now
    then some (record { at = now; limiter = advanced l; later = later })
    else again
