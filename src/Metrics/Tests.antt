-- ===== src/Metrics/Tests.antt =====
-- A histogram that keeps the values themselves, and the theorems at it.
use resp_bench.Prelude.{ℕ, ◌≡◌, refl, true, false, List, [], ◌∷◌, length}
use resp_bench.Command.{CommandResult}
use resp_bench.Prelude.{none, some, if◌then◌else◌, ◌==◌, ◌-◌, ◌/◌}
use resp_bench.Prelude.Dict
use resp_bench.Prelude.Int.{pos}
use resp_bench.Floats.Sample.{whole}
use resp_bench.Json.{Json, int, text}
use resp_bench.Metrics.Writer.{Times}
use resp_bench.Metrics.Writer.Readback.{at_path, metrics_block, metrics_block-tally}
use resp_bench.Metrics.{Histograms, new_collector}
use resp_bench.Metrics.Totals.{
  HistogramLaws, IsTallied, named, failed, failed_named, record_all, record_all-IsTallied,
}

-- Percentiles of it are not asked for here.
abbrev pub values : Histograms
values = record {
  Histogram = List ℕ;
  new_histogram = λ lo hi digits. [];
  record_value = λ h v. v ∷ h;
  get_total_count = λ h. length h;
  get_min_value = λ h. 0;
  get_max_value = λ h. 0;
  get_value_at_permille = λ h p. 0;
  encode_base64 = λ h. "";
}

values_laws : HistogramLaws values
values_laws = record { fresh = refl; counts = λ h v within. refl }

abbrev results : List CommandResult
results =
    record { command_name = "GET"; latency_micros = 700_000_000; is_success = true }
    ∷ record { command_name = "SET"; latency_micros = 12; is_success = true }
    ∷ record { command_name = "GET"; latency_micros = 3; is_success = false }
    ∷ []

record_all-IsTallied_example :
    IsTallied values (record_all values results (new_collector values))
    × (((record_all values results (new_collector values)).total_requests ≡ length results)
        × ((record_all values results (new_collector values)).total_errors ≡ failed results))
record_all-IsTallied_example = record_all-IsTallied values values_laws results

abbrev pub times : Times
times = record { iso8601 = λ t. "2026-01-01T00:00:00Z"; millis = λ a b. (b - a) / 1000 }

metrics_block-tally_example :
    (at_path ("GET" ∷ "requests" ∷ []) (metrics_block whole values times results)
      ≡ (if named "GET" results == 0 then none else some (int (pos (named "GET" results)))))
    × (at_path ("GET" ∷ "errors" ∷ []) (metrics_block whole values times results) ≡ (
        if named "GET" results == 0 then none else some (int (pos (failed_named "GET" results)))))
metrics_block-tally_example = metrics_block-tally whole values times results "GET"

abbrev base : Dict.Dict (Json whole.Float)
base = ("driver_id", text "redis-py") ∷ []

abbrev details : Dict.Dict (Json whole.Float)
details = ("driver_id", text "other") ∷ ("protocol", int (pos 3)) ∷ []
