-- ===== src/Interactive/Loaders.antt =====
-- The loaders of throughputs, latencies and CPU use, for each layout of the results
-- (scripts/generate_interactive_graphs.py).
pub mod Rising
pub mod Summary
use resp_bench.Prelude.{
  ℕ, ◌-◌, Bool, true, false, Option, none, some, List, [], ◌∷◌, ◌++◌, String, if◌then◌else◌,
}
use resp_bench.Prelude.Int.{ℤ}
use resp_bench.Prelude.Dict.{Dict}
use resp_bench.Prelude.Dict
use resp_bench.Prelude.Texts.{concat}
use resp_bench.Prelude.Results.{Result, ok, ◌>>=◌}
use resp_bench.Floats.{Floats}
use resp_bench.Json.{Fields}
use resp_bench.Graphs.{Line}
use resp_bench.Interactive.Numbers.{Numeric, sorted}
use resp_bench.Interactive.Records.{
  load_steady_records, load_cpu_samples, extract_steady_time_windows,
}
use resp_bench.Interactive.Points.{
  Place, OutlierMap, Point, Curves, Throughputs, no_throughputs, add_throughput, LatencyData,
  LatencyCurves, add_latency, sort_latencies, CpuData, add_cpu, sort_curves, fold_result,
}
use resp_bench.Interactive.Layouts.{
  Layout, legacy, flat, Entry, Visit, legacy_visits, flat_files, files_of, by_connections,
  legacy_step, flat_step, group_step,
}

pub record Stats : Type 0 where
  pub total_runs : ℕ
  pub discarded_runs : ℕ
  pub kept_runs : ℕ

module _ {fl : Floats} where
  abbrev stats_of : Throughputs fl → Stats
  stats_of t = record {
    total_runs = t.total_runs;
    discarded_runs = t.discarded_runs;
    kept_runs = t.total_runs - t.discarded_runs;
  }

module _ (fl : Floats) (num : Numeric fl) where
  abbrev AllData : Type 0
  AllData = Curves fl × Stats × OutlierMap

  abbrev pub finish_data : Throughputs fl → AllData
  finish_data t = (sort_curves fl t.curves, stats_of t, t.rps_outlier_map)

  unfoldable pub load_all_data : Dict (Entry fl.Float) → Result (Curves fl × Stats × OutlierMap)
  unfolding legacy_visits load_steady_records add_throughput sorted
  load_all_data results_dir =
      fold_result (legacy_step fl (add_throughput fl num)) (no_throughputs fl)
        (legacy_visits results_dir)
      >>= λ t. ok (finish_data t)

  unfoldable pub load_all_data_flat :
      Dict (Entry fl.Float) → Result (Curves fl × Stats × OutlierMap)
  unfolding flat_files load_steady_records by_connections add_throughput sorted
  load_all_data_flat results_dir =
      fold_result (flat_step fl (add_throughput fl num)) (no_throughputs fl)
        (flat_files results_dir)
      >>= λ t. ok (finish_data t)

  -- The throughputs of a directory of the given layout.
  abbrev pub load_in : Layout → Dict (Entry fl.Float) → Result (Curves fl × Stats × OutlierMap)
  load_in legacy results_dir = load_all_data results_dir
  load_in flat results_dir = load_all_data_flat results_dir

  abbrev no_latencies : LatencyData fl num
  no_latencies = record { latency_curves = []; commands_found = [] }

  unfoldable pub load_latency_data :
      Dict (Entry fl.Float) → OutlierMap → Result (LatencyCurves fl num × List String)
  unfolding legacy_visits load_steady_records add_latency sort_latencies
  load_latency_data results_dir outlier_map =
      fold_result (legacy_step fl (add_latency fl num outlier_map)) no_latencies
        (legacy_visits results_dir)
      >>= λ d. ok (sort_latencies fl num d)

  unfoldable pub load_latency_data_flat :
      Dict (Entry fl.Float) → OutlierMap → Result (LatencyCurves fl num × List String)
  unfolding flat_files load_steady_records by_connections add_latency sort_latencies
  load_latency_data_flat results_dir outlier_map =
      fold_result (flat_step fl (add_latency fl num outlier_map)) no_latencies
        (flat_files results_dir)
      >>= λ d. ok (sort_latencies fl num d)

  module _ (from_iso : String → Option fl.Float) where
    abbrev no_cpu : CpuData fl num
    no_cpu = record { cpu_curves = []; has_data = false }

    abbrev finish_cpu : CpuData fl num → Curves fl × Bool
    finish_cpu d = (sort_curves fl d.cpu_curves, d.has_data)

    -- `subdir / f"{driver}.system.ndjson"`
    abbrev system_file : Dict (List (Line fl.Float)) → String → Option (List (Line fl.Float))
    system_file siblings label = Dict.get siblings (concat (label ∷ ".system.ndjson" ∷ []))

    abbrev with_windows :
        OutlierMap
        → CpuData fl num
        → Place
        → List (Line fl.Float)
        → List (fl.Float × fl.Float)
        → Result (CpuData fl num)
    with_windows outlier_map d place system [] = ok d
    with_windows outlier_map d place system (w ∷ ws) = load_cpu_samples fl system >>= λ samples.
        ok (add_cpu fl num outlier_map d place samples (w ∷ ws))

    abbrev legacy_cpu :
        OutlierMap
        → CpuData fl num
        → Visit fl.Float
        → Option (List (Line fl.Float))
        → Result (CpuData fl num)
    legacy_cpu outlier_map d visit none = ok d
    legacy_cpu outlier_map d visit (some system) = load_steady_records visit.lines >>= λ records.
        extract_steady_time_windows fl from_iso records
        >>= with_windows outlier_map d visit.place system

    unfoldable pub load_cpu_data : Dict (Entry fl.Float) → OutlierMap → Result (Curves fl × Bool)
    unfolding legacy_visits Dict.get load_steady_records load_cpu_samples add_cpu sorted
        extract_steady_time_windows
    load_cpu_data results_dir outlier_map =
        fold_result
          (λ d visit. legacy_cpu outlier_map d visit (system_file visit.siblings visit.place.0))
          no_cpu (legacy_visits results_dir)
        >>= λ d. ok (finish_cpu d)

    abbrev cpu_step :
        OutlierMap
        → List (fl.Float × fl.Float)
        → CpuData fl num
        → Place
        → List (Fields fl.Float)
        → Result (CpuData fl num)
    cpu_step outlier_map samples d place records =
        extract_steady_time_windows fl from_iso records >>= λ windows.
        ok (add_cpu fl num outlier_map d place samples windows)

    abbrev with_samples :
        OutlierMap
        → CpuData fl num
        → String
        → List (Fields fl.Float)
        → List (fl.Float × fl.Float)
        → Result (CpuData fl num)
    with_samples outlier_map d label records [] = ok d
    with_samples outlier_map d label records (s ∷ samples) =
        by_connections records
        >>= fold_result (group_step fl (cpu_step outlier_map (s ∷ samples)) label) d

    abbrev with_records :
        OutlierMap
        → CpuData fl num
        → String
        → List (Line fl.Float)
        → List (Fields fl.Float)
        → Result (CpuData fl num)
    with_records outlier_map d label system [] = ok d
    with_records outlier_map d label system (r ∷ rs) =
        load_cpu_samples fl system >>= with_samples outlier_map d label (r ∷ rs)

    abbrev flat_cpu :
        OutlierMap
        → CpuData fl num
        → String × List (Line fl.Float)
        → Option (List (Line fl.Float))
        → Result (CpuData fl num)
    flat_cpu outlier_map d series none = ok d
    flat_cpu outlier_map d (label, lines) (some system) =
        load_steady_records lines >>= with_records outlier_map d label system

    unfoldable pub load_cpu_data_flat :
        Dict (Entry fl.Float) → OutlierMap → Result (Curves fl × Bool)
    unfolding flat_files Dict.get load_steady_records load_cpu_samples add_cpu sorted
        extract_steady_time_windows by_connections
    load_cpu_data_flat results_dir outlier_map =
        fold_result
          (λ d series. flat_cpu outlier_map d series (system_file (files_of results_dir) series.0))
          no_cpu (flat_files results_dir)
        >>= λ d. ok (finish_cpu d)
