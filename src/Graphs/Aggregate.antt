-- ===== src/Graphs/Aggregate.antt =====
-- The averages that the comparison graphs show (scripts/generate_graphs.py, `aggregate_results`).
-- `mean` is that of numpy, of a list that is not empty; no float is NaN.
pub mod Counted
use resp_bench.Prelude.{
  ℕ, Bool, true, false, Option, none, some, List, [], ◌∷◌, ◌++◌, String, str_eq, length,
  if◌then◌else◌,
}
use resp_bench.Prelude.Dict.{Dict}
use resp_bench.Prelude.Dict
use resp_bench.Prelude.Int.{pos}
use resp_bench.Prelude.Texts.{concat}
use resp_bench.Prelude.Results.{ill_typed, Result, ok, err, ◌>>=◌}
use resp_bench.Floats.{Floats}
use resp_bench.Json.{
  Json, Fields, int, real, get, get_text, get_text_or, get_dict_or_empty, entries, need_dict,
}
use resp_bench.Graphs.{AggregationKey, matches_aggregation_key}

-- The text of a value in an f-string.
abbrev shown : Option String → String
shown none = "None"
shown (some s) = s

abbrev label_with : String → String → Option String → String
label_with driver_id version none = concat (driver_id ∷ " " ∷ version ∷ [])
label_with driver_id version (some secondary) =
    if str_eq secondary ""
    then concat (driver_id ∷ " " ∷ version ∷ [])
    else concat (driver_id ∷ " (" ∷ secondary ∷ ") " ∷ version ∷ [])

module _ {F : Type 0} where
  unfoldable pub run_label : Fields F → Result String
  unfolding get_text get_text_or get_dict_or_empty
  run_label result = get_dict_or_empty result "metadata" >>= λ metadata.
      get_text_or metadata "driver_id" "unknown" >>= λ driver_id.
      get_text_or metadata "primary_driver_version" "unknown" >>= λ version.
      get_text metadata "secondary_driver_id" >>= λ secondary.
      ok (label_with (shown driver_id) (shown version) secondary)

  -- `grouped[label].append(result)` of a `defaultdict(list)`
  abbrev pub joined : Option (List (Fields F)) → Fields F → List (Fields F)
  joined none run = run ∷ []
  joined (some runs) run = runs ++ (run ∷ [])

  abbrev pub join_group : Dict (List (Fields F)) → String → Fields F → Dict (List (Fields F))
  join_group grouped label run = Dict.put grouped label (joined (Dict.get grouped label) run)

  abbrev pub group_run : Bool → Fields F → Dict (List (Fields F)) → Result (Dict (List (Fields F)))
  group_run false run grouped = ok grouped
  group_run true run grouped = run_label run >>= λ label. ok (join_group grouped label run)

  unfoldable pub group_runs :
      AggregationKey → List (Fields F) → Dict (List (Fields F)) → Result (Dict (List (Fields F)))
  unfolding matches_aggregation_key run_label Dict.get Dict.put
  group_runs key [] grouped = ok grouped
  group_runs key (run ∷ runs) grouped = matches_aggregation_key run key >>= λ matches.
      group_run matches run grouped >>= λ after. group_runs key runs after

module _ (fl : Floats) (mean : List fl.Float → fl.Float) where
  pub record Percentiles : Type 0 where
    pub p50_values : List fl.Float
    pub p95_values : List fl.Float
    pub p99_values : List fl.Float
    pub p999_values : List fl.Float

  pub record Averages : Type 0 where
    pub p50_avg : fl.Float
    pub p95_avg : fl.Float
    pub p99_avg : fl.Float
    pub p999_avg : fl.Float

  pub record Aggregate : Type 0 where
    pub run_count : ℕ
    pub total_rps_values : List fl.Float
    pub total_rps_avg : fl.Float
    pub commands : Dict (Percentiles × Averages)

  abbrev number_or : ℕ → Option (Json fl.Float) → Result fl.Float
  number_or n none = ok (fl.of_int (pos n))
  number_or n (some (int i)) = ok (fl.of_int i)
  number_or n (some (real x)) = ok x
  number_or n (some _) = err ill_typed

  -- `total_requests / (duration_ms / 1000) if duration_ms > 0 else 0`
  abbrev total_rps : fl.Float → fl.Float → fl.Float
  total_rps total_requests duration_ms =
      if fl.leb duration_ms (fl.of_int (pos 0))
      then fl.of_int (pos 0)
      else fl.div total_requests (fl.div duration_ms (fl.of_int (pos 1000)))

  unfoldable pub rps_of_run : Fields fl.Float → Result fl.Float
  unfolding get get_dict_or_empty
  rps_of_run run = get_dict_or_empty run "phase" >>= λ phase.
      number_or 1 (get phase "duration_ms") >>= λ duration_ms.
      get_dict_or_empty run "totals" >>= λ totals.
      number_or 0 (get totals "requests") >>= λ total_requests.
      ok (total_rps total_requests duration_ms)

  abbrev no_values : Percentiles
  no_values = record { p50_values = []; p95_values = []; p99_values = []; p999_values = [] }

  abbrev or_none : Option Percentiles → Percentiles
  or_none none = no_values
  or_none (some p) = p

  abbrev one_more : List fl.Float → fl.Float → List fl.Float
  one_more xs x = xs ++ (x ∷ [])

  abbrev add_latency : Dict Percentiles → String → Fields fl.Float → Result (Dict Percentiles)
  add_latency commands name latency = number_or 0 (get latency "p50") >>= λ p50.
      number_or 0 (get latency "p95") >>= λ p95. number_or 0 (get latency "p99") >>= λ p99.
      number_or 0 (get latency "p999") >>= λ p999.
      let old = or_none (Dict.get commands name) in
      ok (
        Dict.put commands name (record {
          p50_values = one_more old.p50_values p50;
          p95_values = one_more old.p95_values p95;
          p99_values = one_more old.p99_values p99;
          p999_values = one_more old.p999_values p999;
        }))

  abbrev pub add_commands :
      List (String × Json fl.Float) → Dict Percentiles → Result (Dict Percentiles)
  add_commands [] commands = ok commands
  add_commands ((name, value) ∷ rest) commands = need_dict value >>= λ cmd_data.
      get_dict_or_empty cmd_data "latency" >>= λ block.
      get_dict_or_empty block "summary" >>= λ latency.
      add_latency commands name latency >>= add_commands rest

  -- The loop over the runs of a label: the throughputs, and the latencies by command.
  unfoldable pub collect_runs :
      List (Fields fl.Float)
      → List fl.Float × Dict Percentiles
      → Result (List fl.Float × Dict Percentiles)
  unfolding rps_of_run get get_dict_or_empty Dict.get Dict.put
  collect_runs [] collected = ok collected
  collect_runs (run ∷ runs) (rps, commands) = rps_of_run run >>= λ x.
      get_dict_or_empty run "metrics" >>= λ metrics.
      add_commands (entries metrics) commands >>= λ after. collect_runs runs (one_more rps x, after)

  abbrev mean_or_zero : List fl.Float → fl.Float
  mean_or_zero [] = fl.of_int (pos 0)
  mean_or_zero (x ∷ xs) = mean (x ∷ xs)

  abbrev averages : Dict Percentiles → Dict (Percentiles × Averages)
  averages [] = []
  averages ((name, p) ∷ commands) =
      (
        name,
        (
          p,
          record {
            p50_avg = mean_or_zero p.p50_values;
            p95_avg = mean_or_zero p.p95_values;
            p99_avg = mean_or_zero p.p99_values;
            p999_avg = mean_or_zero p.p999_values;
          },
        ),
      )
      ∷ averages commands

  abbrev pub finished : List (Fields fl.Float) → List fl.Float × Dict Percentiles → Aggregate
  finished runs (rps, commands) = record {
    run_count = length runs;
    total_rps_values = rps;
    total_rps_avg = mean_or_zero rps;
    commands = averages commands;
  }

  unfoldable pub aggregate_groups : Dict (List (Fields fl.Float)) → Result (Dict Aggregate)
  unfolding collect_runs
  aggregate_groups [] = ok []
  aggregate_groups ((label, runs) ∷ grouped) = collect_runs runs ([], []) >>= λ collected.
      aggregate_groups grouped >>= λ later. ok ((label, finished runs collected) ∷ later)

  unfoldable pub aggregate_results :
      List (Fields fl.Float) → AggregationKey → Result (Dict Aggregate)
  unfolding group_runs aggregate_groups
  aggregate_results results key = group_runs key results [] >>= aggregate_groups
