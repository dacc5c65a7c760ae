-- ===== src/Client/Measure.antt =====
-- Timing an operation of a driver (client/benchmark_client.py, `_measure`).
use resp_bench.Prelude.{ℕ, ◌-◌, ◌/◌, Bool, true, false, none, some}
use resp_bench.Prelude.Results.{Exc, is_exception, Result, ok, err}
use resp_bench.Command.{Value, nothing, TimedResult}

-- `(time.perf_counter_ns() - start) // 1000`, of a clock that does not go back
unfoldable pub latency_micros : ℕ → ℕ → ℕ
latency_micros start finish = (finish - start) / 1000

abbrev failed : ℕ → Exc → Bool → Result TimedResult
failed latency error true =
    ok (record { value = nothing; latency_micros = latency; error = some error })
failed latency error false = err error

-- The two readings of the clock, and what the operation comes to.
unfoldable pub measure : ℕ → ℕ → Result Value → Result TimedResult
unfolding latency_micros
measure start finish (ok value) =
    ok (record { value = value; latency_micros = latency_micros start finish; error = none })
measure start finish (err error) = failed (latency_micros start finish) error (is_exception error)
