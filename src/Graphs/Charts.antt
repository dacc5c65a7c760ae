-- ===== src/Graphs/Charts.antt =====
-- The charts of the comparison graphs, and the script as a whole (scripts/generate_graphs.py). A chart
-- is given as its bars and texts; drawing it is matplotlib's. What it asks of the world is given: the
-- files that a pattern stands for, the lines of a file, and what git answers.
pub mod Sourced
use resp_bench.Prelude.{
  ℕ, Bool, true, false, not, Option, none, some, List, [], ◌∷◌, ◌++◌, String, str_eq, if◌then◌else◌,
}
use resp_bench.Prelude.Dict.{Dict}
use resp_bench.Prelude.Dict
use resp_bench.Prelude.Texts.{concat, lower, upper, strip, sorted_set}
use resp_bench.Prelude.Paths.{contains}
use resp_bench.Prelude.Results.{Result, ok, err, system_exit, ◌>>=◌}
use resp_bench.Floats.{Floats}
use resp_bench.Keys.{decimal}
use resp_bench.Graphs.{Line, AggregationKey, load_results}
use resp_bench.Graphs.Aggregate.{Percentiles, Averages, Aggregate, aggregate_results}
use resp_bench.Interactive.Numbers.{sorted}

-- What git answers: the text of `rev-parse`, none where it fails, and whether `diff` finds no change.
pub record Git : Type 0 where
  pub head : Option String
  pub is_clean : Bool

unfoldable pub get_current_commit_id : Git → Option String
unfolding strip
get_current_commit_id git = elim git.head [
  | none ↦ none
  | some stdout ↦
      let commit_id = strip stdout in
      some (if git.is_clean then commit_id else concat (commit_id ∷ "-dirty" ∷ []))
]

abbrev latency_colors : Dict String
latency_colors =
    ("p50", "#4CAF50") ∷ ("p95", "#FF9800") ∷ ("p99", "#F44336") ∷ ("p999", "#9C27B0") ∷ []

abbrev suffix_of : Option String → String
suffix_of none = ""
suffix_of (some name) = if str_eq name "" then "" else concat (" - " ∷ name ∷ [])

abbrev or_one : Option ℕ → ℕ
or_one none = 1
or_one (some n) = n

abbrev keys_of {ℓ} : {V : Type ℓ} → Dict V → List String
keys_of [] = []
keys_of ((k, v) ∷ d) = k ∷ keys_of d

pub record Options : Type 0 where
  pub results : List String
  pub phase : String
  pub language : Option String
  pub commit_id : Option String
  pub primary_driver_version : Option String
  pub secondary_driver_version : Option String
  pub workload : Option String

abbrev or_pattern : String → List String → List String
or_pattern pattern [] = pattern ∷ []
or_pattern pattern (path ∷ paths) = path ∷ paths

-- `if not xs: sys.exit(1)`
abbrev pub need_some {ℓ} : {A : Type ℓ} → List A → Result (List A)
need_some [] = err system_exit
need_some (x ∷ xs) = ok (x ∷ xs)

abbrev pub need_commit : Option String → Result String
need_commit none = err system_exit
need_commit (some id) = if str_eq id "" then err system_exit else ok id

module _ (fl : Floats) where
  pub record Chart : Type 0 where
    pub file_name : String
    pub title : String
    pub xlabel : String
    pub color : String
    pub bars : List (String × fl.Float)

  abbrev Bars : Type 0
  Bars = List (String × fl.Float)

  -- Whether a bar stands before another one: the smaller first for latencies, the greater for the rest.
  abbrev before : Bool → String × fl.Float → String × fl.Float → Bool
  before true (a, x) (b, y) = not (fl.leb y x)
  before false (a, x) (b, y) = not (fl.leb x y)

  abbrev labelled : Dict ℕ → Bars → Bars
  labelled run_counts [] = []
  labelled run_counts ((driver, value) ∷ rest) =
      (concat (driver ∷ " (n=" ∷ decimal (or_one (Dict.get run_counts driver)) ∷ ")" ∷ []), value)
      ∷ labelled run_counts rest

  -- No chart without data.
  unfoldable create_horizontal_bar_chart :
      Dict fl.Float → Dict ℕ → String → String → String → String → List Chart
  unfolding sorted lower decimal Dict.get
  create_horizontal_bar_chart [] run_counts title xlabel file_name color = []
  create_horizontal_bar_chart (d ∷ ds) run_counts title xlabel file_name color =
      record {
        file_name = file_name;
        title = title;
        xlabel = xlabel;
        color = color;
        bars = labelled run_counts (sorted (before (contains (lower title) "latency")) (d ∷ ds));
      }
      ∷ []

  pub record World : Type 0 where
    pub glob : String → List String
    pub read : String → Option (List (Line fl.Float))
    pub git : Git

  abbrev with_lines : World → List String → List (String × Option (List (Line fl.Float)))
  with_lines world [] = []
  with_lines world (path ∷ paths) = (path, world.read path) ∷ with_lines world paths

  abbrev pub expanded : World → List String → List (String × Option (List (Line fl.Float)))
  expanded world [] = []
  expanded world (pattern ∷ patterns) =
      with_lines world (or_pattern pattern (world.glob pattern)) ++ expanded world patterns

  -- The commit that is given, or that of git; none where neither is there.
  abbrev pub commit_for : World → Option String → Option String
  commit_for world none = get_current_commit_id world.git
  commit_for world (some id) = if str_eq id "" then get_current_commit_id world.git else some id

  module _ (mean : List fl.Float → fl.Float) where
    abbrev Aggregated : Type 0
    Aggregated = Dict (Aggregate fl mean)

    abbrev all_names : Aggregated → List String
    all_names [] = []
    all_names ((driver, a) ∷ rest) = keys_of a.commands ++ all_names rest

    abbrev counts_of : Aggregated → Dict ℕ
    counts_of [] = []
    counts_of ((driver, a) ∷ rest) = (driver, a.run_count) ∷ counts_of rest

    abbrev rps_data : Aggregated → Dict fl.Float
    rps_data [] = []
    rps_data ((driver, a) ∷ rest) = (driver, a.total_rps_avg) ∷ rps_data rest

    -- `f"{percentile}_avg"`, for the four percentiles
    abbrev average_at : String → Averages fl mean → fl.Float
    average_at percentile a =
        if str_eq percentile "p50"
        then a.p50_avg
        else if str_eq percentile "p95"
        then a.p95_avg
        else if str_eq percentile "p99"
        then a.p99_avg
        else a.p999_avg

    abbrev add_average :
        String
        → String
        → Option (Percentiles fl mean × Averages fl mean)
        → Dict fl.Float
        → Dict fl.Float
    add_average driver percentile none later = later
    add_average driver percentile (some (p, a)) later = (driver, average_at percentile a) ∷ later

    abbrev latency_data : String → String → Aggregated → Dict fl.Float
    latency_data percentile cmd [] = []
    latency_data percentile cmd ((driver, a) ∷ rest) =
        add_average driver percentile (Dict.get a.commands cmd) (latency_data percentile cmd rest)

    abbrev latency_charts : Aggregated → String → String → String → List String → List Chart
    latency_charts aggregated suffix percentile color [] = []
    latency_charts aggregated suffix percentile color (cmd ∷ cmds) =
        create_horizontal_bar_chart (latency_data percentile cmd aggregated) (counts_of aggregated)
          (concat ("Latency " ∷ upper percentile ∷ " - " ∷ cmd ∷ " Command" ∷ suffix ∷ []))
          "Latency (microseconds)" (concat ("latency-" ∷ percentile ∷ "-" ∷ cmd ∷ ".png" ∷ []))
          color
        ++ latency_charts aggregated suffix percentile color cmds

    abbrev percentile_charts : Aggregated → String → Dict String → List Chart
    percentile_charts aggregated suffix [] = []
    percentile_charts aggregated suffix ((percentile, color) ∷ rest) =
        latency_charts aggregated suffix percentile color (sorted_set (all_names aggregated))
        ++ percentile_charts aggregated suffix rest

    unfoldable pub generate_graphs : Dict (Aggregate fl mean) → Option String → List Chart
    unfolding create_horizontal_bar_chart upper sorted_set Dict.get
    generate_graphs aggregated workload_name =
        create_horizontal_bar_chart (rps_data aggregated) (counts_of aggregated)
          (concat ("Total Workload Throughput" ∷ suffix_of workload_name ∷ []))
          "Requests per Second (RPS)" "rps-total.png" "#2196F3"
        ++ percentile_charts aggregated (suffix_of workload_name) latency_colors

    unfoldable pub main : World → Options → Result (List Chart)
    unfolding load_results get_current_commit_id aggregate_results generate_graphs
    main world options = need_some (expanded world options.results) >>= λ all_files.
        load_results all_files options.phase options.language >>= need_some >>= λ results.
        need_commit (commit_for world options.commit_id) >>= λ commit_id.
        aggregate_results fl mean results (record {
          commit_id = some commit_id;
          primary_driver_version = options.primary_driver_version;
          secondary_driver_version = options.secondary_driver_version;
        })
        >>= need_some
        >>= λ aggregated. ok (generate_graphs aggregated options.workload)
