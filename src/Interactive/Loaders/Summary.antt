-- ===== src/Interactive/Loaders/Summary.antt =====
-- What the loaders of throughputs return of the runs that they read.
use resp_bench.Prelude.{ℕ, ◌+◌, ◌≡◌, sum_by, ◌++◌, List, [], ◌∷◌, String, length, All}
use resp_bench.Prelude.Int.{ℤ}
use resp_bench.Prelude.Dict.{Dict}
use resp_bench.Prelude.Results.{Result, ok, err, ◌>>=◌}
use resp_bench.Floats.{Floats}
use resp_bench.Json.{Fields}
use resp_bench.Interactive.Numbers.{Numeric}
use resp_bench.Interactive.Outliers.{keep, find_consensus_outliers}
use resp_bench.Graphs.{Line}
use resp_bench.Interactive.Records.{extract_total_rps, load_steady_records}
use resp_bench.Interactive.Points.{OutlierMap, Curves, Throughputs}
use resp_bench.Interactive.Layouts.{
  Layout, legacy, flat, Entry, Visit, legacy_visits, flat_files, by_connections,
}
use resp_bench.Interactive.Loaders.Rising.{IsRising}
use resp_bench.Interactive.Loaders.{Stats}

module _ (fl : Floats) (num : Numeric fl) where
  -- The throughputs at each place, in the order in which the loader comes to them: one list for each
  -- series and number of clients.
  abbrev pub read_groups : List (ℤ × List (Fields fl.Float)) → Result (List (List fl.Float))
  read_groups [] = ok []
  read_groups ((count, records) ∷ groups) =
      extract_total_rps fl records >>= λ values. read_groups groups >>= λ later. ok (values ∷ later)

  abbrev pub read_visits : List (Visit fl.Float) → Result (List (List fl.Float))
  read_visits [] = ok []
  read_visits (visit ∷ visits) = load_steady_records visit.lines >>= λ records.
      extract_total_rps fl records >>= λ values. read_visits visits >>= λ later. ok (values ∷ later)

  abbrev pub read_files : List (String × List (Line fl.Float)) → Result (List (List fl.Float))
  read_files [] = ok []
  read_files ((label, lines) ∷ files) = (load_steady_records lines >>= by_connections) >>= λ groups.
      read_groups groups >>= λ here. read_files files >>= λ later. ok (here ++ later)

  abbrev pub readings : Layout → Dict (Entry fl.Float) → Result (List (List fl.Float))
  readings legacy results_dir = read_visits (legacy_visits results_dir)
  readings flat results_dir = read_files (flat_files results_dir)

  abbrev pub set_or_empty : Result (List ℕ) → List ℕ
  set_or_empty (err e) = []
  set_or_empty (ok s) = s

  -- The outliers of some throughputs.
  abbrev pub outliers_of : List fl.Float → List ℕ
  outliers_of values = set_or_empty (find_consensus_outliers fl num values)

  abbrev pub discarded_of : List fl.Float → ℕ
  discarded_of values = length (outliers_of values)

  abbrev pub kept_of : List fl.Float → ℕ
  kept_of values = length (keep (outliers_of values) values)

  -- The counts after more readings.
  record Accounts (t u : Throughputs fl) (lists : List (List fl.Float)) : Type 0 where
    total : u.total_runs ≡ t.total_runs + sum_by length lists
    discarded : u.discarded_runs ≡ t.discarded_runs + sum_by discarded_of lists

  -- What is returned of some throughputs: how many they are, how many of them are outliers and how
  -- many are averaged, and curves from fewer clients to more.
  abbrev pub Sums : List (List fl.Float) → Curves fl × Stats × OutlierMap → Type 0
  Sums lists loaded =
      (loaded.1.total_runs ≡ sum_by length lists)
      × (loaded.1.discarded_runs ≡ sum_by discarded_of lists)
      × (loaded.1.kept_runs ≡ sum_by kept_of lists)
      × All (λ c. IsRising fl c.1) loaded.0
