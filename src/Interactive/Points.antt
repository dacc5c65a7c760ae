-- ===== src/Interactive/Points.antt =====
-- The points of the curves: the mean over the runs of a series at a number of clients, without those
-- whose throughput is an outlier (scripts/generate_interactive_graphs.py). A run at a place has the
-- same code in both layouts of the results.
use resp_bench.Prelude.{
  ℕ, ◌+◌, Bool, true, ◌&&◌, Option, none, some, List, [], ◌∷◌, String, str_eq, length,
}
use resp_bench.Prelude.Int.{ℤ, ltb_ℤ, eqb_ℤ}
use resp_bench.Prelude.Texts.{sorted_set}
use resp_bench.Prelude.Results.{Result, ok, ◌>>=◌}
use resp_bench.Floats.{Floats}
use resp_bench.Json.{Fields}
use resp_bench.Interactive.Numbers.{Numeric, sorted}
use resp_bench.Interactive.Keyed.{find, assign, append_to}
use resp_bench.Interactive.Outliers.{keep, kept_from, find_consensus_outliers}
use resp_bench.Interactive.Records.{
  extract_total_rps, extract_latency_percentiles, compute_avg_cpu_for_window, mean_of, Latencies,
}

-- A series and a number of clients.
abbrev pub Place : Type 0
Place = String × ℤ

abbrev same_place : Place → Place → Bool
same_place (a, m) (b, n) = str_eq a b && eqb_ℤ m n

abbrev pub OutlierMap : Type 0
OutlierMap = List (Place × List ℕ)

-- `rps_outlier_map.get((driver, client_count), set())`
abbrev or_empty : Option (List ℕ) → List ℕ
or_empty none = []
or_empty (some s) = s

abbrev outliers_at : OutlierMap → Place → List ℕ
outliers_at outlier_map place = or_empty (find same_place outlier_map place)

-- The code in a loop over what there is: `next` takes the state on.
abbrev pub fold_result {ℓ κ} :
    {S : Type ℓ} {A : Type κ} → (S → A → Result S) → S → List A → Result S
fold_result next s [] = ok s
fold_result next s (x ∷ xs) = next s x >>= λ after. fold_result next after xs

module _ (fl : Floats) where
  abbrev pub Point : Type 0
  Point = ℤ × fl.Float

  abbrev pub Curves : Type 0
  Curves = List (String × List Point)

  abbrev pub fewer_clients : Point → Point → Bool
  fewer_clients (m, x) (n, y) = ltb_ℤ m n

  -- `data[k].sort(key=lambda x: x[0])` for each k
  abbrev pub sort_curves {ℓ} : {K : Type ℓ} → List (K × List Point) → List (K × List Point)
  sort_curves [] = []
  sort_curves ((k, points) ∷ rest) = (k, sorted fewer_clients points) ∷ sort_curves rest

  abbrev append_mean {ℓ} :
      {K : Type ℓ}
      → (K → K → Bool)
      → List (K × List Point)
      → K
      → ℤ
      → Option fl.Float
      → List (K × List Point)
  append_mean eq curves k count none = curves
  append_mean eq curves k count (some avg) = append_to eq curves k (count, avg)

  pub record Throughputs : Type 0 where
    pub curves : Curves
    pub total_runs : ℕ
    pub discarded_runs : ℕ
    pub rps_outlier_map : OutlierMap

  abbrev pub no_throughputs : Throughputs
  no_throughputs = record { curves = []; total_runs = 0; discarded_runs = 0; rps_outlier_map = [] }

  module _ (num : Numeric fl) where
    abbrev with_outliers : Throughputs → Place → List fl.Float → List ℕ → Throughputs
    with_outliers t place rps_values outliers = record {
      curves =
          append_mean str_eq t.curves place.0 place.1 (mean_of fl num (keep outliers rps_values));
      total_runs = t.total_runs + length rps_values;
      discarded_runs = t.discarded_runs + length outliers;
      rps_outlier_map = assign same_place t.rps_outlier_map place outliers;
    }

    abbrev pub add_values : Throughputs → Place → List fl.Float → Result Throughputs
    add_values t place [] = ok t
    add_values t place (v ∷ vs) = find_consensus_outliers fl num (v ∷ vs) >>= λ outliers.
        ok (with_outliers t place (v ∷ vs) outliers)

    unfoldable pub add_throughput :
        Throughputs → Place → List (Fields fl.Float) → Result Throughputs
    unfolding extract_total_rps find_consensus_outliers kept_from assign append_to
    add_throughput t place records =
        extract_total_rps fl records >>= λ rps_values. add_values t place rps_values

    abbrev LatencyKey : Type 0
    LatencyKey = String × (String × String)

    abbrev pub same_key : LatencyKey → LatencyKey → Bool
    same_key (s, (c, p)) (t, (d, q)) = str_eq s t && (str_eq c d && str_eq p q)

    abbrev pub LatencyCurves : Type 0
    LatencyCurves = List ((String × (String × String)) × List Point)

    pub record LatencyData : Type 0 where
      pub latency_curves : LatencyCurves
      pub commands_found : List String

    abbrev add_series : LatencyData → Place → List ℕ → Latencies fl → LatencyData
    add_series d place outliers [] = d
    add_series d place outliers (((cmd, pct), values) ∷ rest) =
        add_series
          (record {
            latency_curves =
                append_mean same_key d.latency_curves (place.0, (cmd, pct)) place.1
                  (mean_of fl num (keep outliers values));
            commands_found = cmd ∷ d.commands_found;
          })
          place outliers rest

    unfoldable pub add_latency :
        OutlierMap → LatencyData → Place → List (Fields fl.Float) → Result LatencyData
    unfolding extract_latency_percentiles find kept_from append_to
    add_latency outlier_map d place records = extract_latency_percentiles fl records >>= λ pct_data.
        ok (add_series d place (outliers_at outlier_map place) pct_data)

    -- The curves, and the commands in order, each of them once.
    unfoldable pub sort_latencies : LatencyData → LatencyCurves × List String
    unfolding sorted sorted_set
    sort_latencies d = (sort_curves d.latency_curves, sorted_set d.commands_found)

    pub record CpuData : Type 0 where
      pub cpu_curves : Curves
      pub has_data : Bool

    abbrev cpu_values : List (fl.Float × fl.Float) → List (fl.Float × fl.Float) → List fl.Float
    cpu_values samples [] = []
    cpu_values samples ((start, finish) ∷ windows) =
        elim (compute_avg_cpu_for_window fl num samples start finish) [
          | none ↦ cpu_values samples windows
          | some avg ↦ avg ∷ cpu_values samples windows
        ]

    abbrev add_averages : OutlierMap → CpuData → Place → List fl.Float → CpuData
    add_averages outlier_map d place [] = d
    add_averages outlier_map d place (v ∷ vs) = record {
      cpu_curves =
          append_mean str_eq d.cpu_curves place.0 place.1
            (mean_of fl num (keep (outliers_at outlier_map place) (v ∷ vs)));
      has_data = true;
    }

    -- Without windows or samples there are no values.
    unfoldable pub add_cpu :
        OutlierMap
        → CpuData
        → Place
        → List (fl.Float × fl.Float)
        → List (fl.Float × fl.Float)
        → CpuData
    unfolding compute_avg_cpu_for_window find kept_from append_to
    add_cpu outlier_map d place samples windows =
        add_averages outlier_map d place (cpu_values samples windows)
