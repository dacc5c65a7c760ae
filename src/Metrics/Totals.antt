-- ===== src/Metrics/Totals.antt =====
-- The collector against a plain tally of the results that it was given.
use Prim.Native.Nat.{min}
use resp_bench.Prelude.{
  ℕ, suc, ◌+◌, ◌≤◌, String, ◌≡◌, refl, List, [], ◌∷◌, length, arith, str_eq, eq_iff, if◌then◌else◌,
  Bool-cases, Option-cases, inl, inr,
}
use resp_bench.Prelude.Dict
use resp_bench.Prelude.Dict.{
  Dict, get-put, total, total-put, weight_at, AllValues, AllValues-put, AllValues-get,
}
use resp_bench.Command.{CommandResult}
use resp_bench.Metrics.{
  Histograms, highest_trackable_value, CommandMetrics, new_metrics, record_metrics,
  MetricsCollector, new_collector, metrics_or_new, record_result,
}

-- What the code relies on: a histogram counts the values in its range that it is given.
pub record HistogramLaws (hs : Histograms) : Type 0 where
  pub fresh : hs.get_total_count (hs.new_histogram 1 highest_trackable_value 3) ≡ 0
  pub counts :
      (h : hs.Histogram) (v : ℕ)
      → v ≤ highest_trackable_value
      → hs.get_total_count (hs.record_value h v) ≡ suc (hs.get_total_count h)

-- The results of one command, and the failed ones.
abbrev pub named : String → List CommandResult → ℕ
named n [] = 0
named n (r ∷ rs) = (if str_eq r.command_name n then 1 else 0) + named n rs

abbrev pub failed : List CommandResult → ℕ
failed [] = 0
failed (r ∷ rs) = (if r.is_success then 0 else 1) + failed rs

abbrev pub failed_named : String → List CommandResult → ℕ
failed_named n [] = 0
failed_named n (r ∷ rs) =
    (if str_eq r.command_name n then (if r.is_success then 0 else 1) else 0) + failed_named n rs

module _ (hs : Histograms) where
  -- `record` for each result in turn.
  unfoldable pub record_all : List CommandResult → MetricsCollector hs → MetricsCollector hs
  unfolding record_result
  record_all [] c = c
  record_all (r ∷ rs) c = record_all rs (record_result hs r c)

  abbrev pub requests_of : MetricsCollector hs → String → ℕ
  requests_of c n = weight_at (λ m. m.requests) (Dict.get c.command_metrics n)

  abbrev pub errors_of : MetricsCollector hs → String → ℕ
  errors_of c n = weight_at (λ m. m.errors) (Dict.get c.command_metrics n)

  requests_of-record :
      (c : MetricsCollector hs) (r : CommandResult) (n : String)
      → requests_of (record_result hs r c) n
        ≡ (if str_eq r.command_name n then 1 else 0) + requests_of c n
  unfolding record_result
  requests_of-record c r n = elim (Option-cases (Dict.get c.command_metrics r.command_name)) [
    | inl e ↦ rw get-put (ground (arith, e, eq_iff r.command_name n))
    | inr (m, e) ↦ rw get-put (ground (arith, e, eq_iff r.command_name n))
  ]

  errors_of-record :
      (c : MetricsCollector hs) (r : CommandResult) (n : String)
      → errors_of (record_result hs r c) n
        ≡ (if str_eq r.command_name n then (if r.is_success then 0 else 1) else 0) + errors_of c n
  unfolding record_result
  errors_of-record c r n = elim (Option-cases (Dict.get c.command_metrics r.command_name)) [
    | inl e ↦ rw get-put (ground (arith, e, eq_iff r.command_name n))
    | inr (m, e) ↦ rw get-put (ground (arith, e, eq_iff r.command_name n))
  ]

  record_all-adds :
      (rs : List CommandResult) (c : MetricsCollector hs) (n : String)
      → (requests_of (record_all rs c) n ≡ named n rs + requests_of c n)
        × (errors_of (record_all rs c) n ≡ failed_named n rs + errors_of c n)
  unfolding record_all
  record_all-adds [] c n = (omega arith, omega arith)
  record_all-adds (r ∷ rs) c n =
      let (q, e) = record_all-adds rs (record_result hs r c) n in
      (omega (arith, q, requests_of-record c r n), omega (arith, e, errors_of-record c r n))

  -- After any results, each command has as many requests, and as many errors, as results with its
  -- name were recorded, and as many of these failed.
  pub record_all-tally :
      (rs : List CommandResult) (n : String)
      → (requests_of (record_all rs (new_collector hs)) n ≡ named n rs)
        × (errors_of (record_all rs (new_collector hs)) n ≡ failed_named n rs)
  unfolding Dict.get
  record_all-tally rs n =
      let (q, e) = record_all-adds rs (new_collector hs) n in (omega (arith, q), omega (arith, e))

  -- One entry: its histogram holds its successes.
  abbrev pub IsCounted : CommandMetrics hs → Type 0
  IsCounted m = m.errors + hs.get_total_count m.histogram ≡ m.requests

  -- The collector's totals are the sums over its entries.
  pub record IsTallied (c : MetricsCollector hs) : Type 0 where
    pub requests_sum : total (λ m. m.requests) c.command_metrics ≡ c.total_requests
    pub errors_sum : total (λ m. m.errors) c.command_metrics ≡ c.total_errors
    pub entries : AllValues IsCounted c.command_metrics

  pub record_result-totals :
      (c : MetricsCollector hs) (r : CommandResult)
      → ((record_result hs r c).total_requests ≡ c.total_requests + 1)
        × ((record_result hs r c).total_errors ≡ c.total_errors + (if r.is_success then 0 else 1))
  unfolding record_result
  record_result-totals c r = (refl, ground arith)

  module _ (laws : HistogramLaws hs) where
    new_metrics-IsCounted : (n : String) → IsCounted (new_metrics hs n)
    unfolding new_metrics
    new_metrics-IsCounted n = omega (arith, laws.fresh)

    record_metrics-IsCounted :
        (m : CommandMetrics hs) (r : CommandResult)
        → IsCounted m
        → IsCounted (record_metrics hs m r)
    unfolding record_metrics
    record_metrics-IsCounted m r h = elim (Bool-cases r.is_success) [
      | inl e ↦ rw e (
          omega (
            arith,
            laws.counts m.histogram (min r.latency_micros highest_trackable_value) (omega arith),
          ))
      | inr e ↦ rw e (omega arith)
    ]

    metrics_or_new-IsCounted :
        (c : MetricsCollector hs) (n : String) → IsTallied c → IsCounted (metrics_or_new hs c n)
    metrics_or_new-IsCounted c n t = elim (Option-cases (Dict.get c.command_metrics n)) [
      | inl e ↦ rw (e, metrics_or_new) (new_metrics-IsCounted n)
      | inr (m, e) ↦
          rw (e, metrics_or_new) (AllValues-get IsCounted c.command_metrics n m t.entries e)
    ]

    record_metrics-adds :
        (m : CommandMetrics hs) (r : CommandResult)
        → ((record_metrics hs m r).requests ≡ m.requests + 1)
          × ((record_metrics hs m r).errors ≡ m.errors + (if r.is_success then 0 else 1))
    unfolding record_metrics
    record_metrics-adds m r = elim (Bool-cases r.is_success) [
      | inl e ↦ rw e (refl, omega arith)
      | inr e ↦ rw e (refl, refl)
    ]

    metrics_or_new-weights :
        (c : MetricsCollector hs) (n : String)
        → ((metrics_or_new hs c n).requests ≡ requests_of c n)
          × ((metrics_or_new hs c n).errors ≡ errors_of c n)
    unfolding new_metrics
    metrics_or_new-weights c n = elim (Option-cases (Dict.get c.command_metrics n)) [
      | inl e ↦ rw (e, metrics_or_new) (refl, refl)
      | inr (m, e) ↦ rw (e, metrics_or_new) (refl, refl)
    ]

    record_result-IsTallied :
        (c : MetricsCollector hs) (r : CommandResult)
        → IsTallied c
        → IsTallied (record_result hs r c)
    unfolding record_result
    record_result-IsTallied c r t =
        let m = metrics_or_new hs c r.command_name in
        let adds = record_metrics-adds m r in
        let had = metrics_or_new-weights c r.command_name in
        record {
          requests_sum = omega (
            arith,
            t.requests_sum,
            adds.0,
            had.0,
            total-put (λ m. m.requests) c.command_metrics r.command_name (record_metrics hs m r),
          );
          errors_sum = ground (
            arith,
            t.errors_sum,
            adds.1,
            had.1,
            total-put (λ m. m.errors) c.command_metrics r.command_name (record_metrics hs m r),
          );
          entries =
              AllValues-put IsCounted c.command_metrics r.command_name _ t.entries
                (record_metrics-IsCounted m r (metrics_or_new-IsCounted c r.command_name t));
        }

    record_all-keeps :
        (rs : List CommandResult) (c : MetricsCollector hs)
        → IsTallied c
        → IsTallied (record_all rs c)
          × (((record_all rs c).total_requests ≡ length rs + c.total_requests)
              × ((record_all rs c).total_errors ≡ failed rs + c.total_errors))
    unfolding record_all
    record_all-keeps [] c t = (t, (omega arith, omega arith))
    record_all-keeps (r ∷ rs) c t =
        let (h, (q, e)) =
          record_all-keeps rs (record_result hs r c) (record_result-IsTallied c r t) in
        let (n, f) = record_result-totals c r in (h, (omega (arith, q, n), omega (arith, e, f)))

    -- If a histogram counts the values in its range that it is given, and is empty at first, then after
    -- any results the totals of the collector are the number of results and of those that failed, the
    -- sums over the entries of the commands are these totals, and the histogram of each entry counts
    -- exactly its successful requests.
    pub record_all-IsTallied :
        (rs : List CommandResult)
        → IsTallied (record_all rs (new_collector hs))
          × (((record_all rs (new_collector hs)).total_requests ≡ length rs)
              × ((record_all rs (new_collector hs)).total_errors ≡ failed rs))
    record_all-IsTallied rs =
        let start : IsTallied (new_collector hs) = record {
          requests_sum = refl;
          errors_sum = refl;
          entries = tt;
        } in
        let (h, (q, e)) = record_all-keeps rs (new_collector hs) start in
        (h, (omega (arith, q), omega (arith, e)))
