-- ===== src/Metrics.antt =====
-- Metrics collection and its NDJSON rows (python/src/resp_bench/metrics). The histogram is that of
-- the hdrhistogram package: a parameter, with the operations that the code calls.
pub mod Totals
pub mod Writer
pub mod Tests
use Prim.Native.Nat.{min}
use resp_bench.Prelude.{ℕ, ◌+◌, String, Bool, true, false, Option, none, some, if◌then◌else◌, not}
use resp_bench.Prelude.Dict
use resp_bench.Prelude.Dict.{Dict}
use resp_bench.Prelude.Int.{ℤ}
use resp_bench.Command.{CommandResult}

abbrev pub highest_trackable_value : ℕ
highest_trackable_value = 600_000_000

-- `HdrHistogram`: a percentile is asked for in tenths of a percent (50 is 500, 99.9 is 999).
pub record Histograms : Type 1 where
  pub Histogram : Type 0
  pub new_histogram : ℕ → ℕ → ℕ → Histogram
  pub record_value : Histogram → ℕ → Histogram
  pub get_total_count : Histogram → ℕ
  pub get_min_value : Histogram → ℕ
  pub get_max_value : Histogram → ℕ
  pub get_value_at_permille : Histogram → ℕ → ℕ
  pub encode_base64 : Histogram → String

module _ (hs : Histograms) where
  pub record CommandMetrics : Type 0 where
    pub command_name : String
    pub requests : ℕ
    pub errors : ℕ
    pub histogram : hs.Histogram

  -- `CommandMetrics(name)`, with `new_histogram()`
  unfoldable pub new_metrics : String → CommandMetrics
  new_metrics name = record {
    command_name = name;
    requests = 0;
    errors = 0;
    histogram = hs.new_histogram 1 highest_trackable_value 3;
  }

  unfoldable pub record_metrics : CommandMetrics → CommandResult → CommandMetrics
  record_metrics m r =
      if r.is_success
      then record m {
        requests = m.requests + 1;
        histogram = hs.record_value m.histogram (min r.latency_micros highest_trackable_value);
      }
      else record m { requests = m.requests + 1; errors = m.errors + 1 }

  -- Times are microseconds of UTC.
  pub record MetricsCollector : Type 0 where
    pub command_metrics : Dict CommandMetrics
    pub total_requests : ℕ
    pub total_errors : ℕ
    pub start_time : Option ℕ
    pub end_time : Option ℕ

  abbrev pub new_collector : MetricsCollector
  new_collector = record {
    command_metrics = Dict.empty;
    total_requests = 0;
    total_errors = 0;
    start_time = none;
    end_time = none;
  }

  unfoldable pub start : ℕ → MetricsCollector → MetricsCollector
  start now c = record c { start_time = some now }

  unfoldable pub stop : ℕ → MetricsCollector → MetricsCollector
  stop now c = record c { end_time = some now }

  abbrev pub metrics_or_new : MetricsCollector → String → CommandMetrics
  metrics_or_new c name = elim (Dict.get c.command_metrics name) [
    | none ↦ new_metrics name
    | some m ↦ m
  ]

  -- `record`: the entry is written back, which is what mutating it in place comes to.
  unfoldable pub record_result : CommandResult → MetricsCollector → MetricsCollector
  unfolding record_metrics new_metrics
  record_result r c = record c {
    total_requests = c.total_requests + 1;
    total_errors = if r.is_success then c.total_errors else c.total_errors + 1;
    command_metrics =
        Dict.put c.command_metrics r.command_name
          (record_metrics (metrics_or_new c r.command_name) r);
  }
