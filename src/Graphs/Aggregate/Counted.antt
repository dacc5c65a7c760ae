-- ===== src/Graphs/Aggregate/Counted.antt =====
-- Which rows the averages of the comparison graphs are made of.
use resp_bench.Prelude.{
  ◌≡◌, ◌⊎◌, refl, sym, ap, ◌∙◌, Bool, true, false, Bool-cases, inl, inr, Option, none, some, List,
  [], ◌∷◌, String, str_eq, length, eq_iff, arith, if◌then◌else◌,
}
use resp_bench.Prelude.Dict
use resp_bench.Prelude.Dict.{Dict, get-put}
use resp_bench.Prelude.Results.{Result, ok, ◌>>=◌, >>=-eq-ok, ok-injective}
use resp_bench.Floats.{Floats}
use resp_bench.Json.{Fields}
use resp_bench.Graphs.{AggregationKey, matches_aggregation_key}
use resp_bench.Graphs.Aggregate.{
  run_label, joined, join_group, group_run, group_runs, Aggregate, rps_of_run, aggregate_results,
}

module _ {F : Type 0} where
  abbrev pub label_match :
      Bool → Fields F → List (String × Fields F) → Result (List (String × Fields F))
  label_match false run later = ok later
  label_match true run later = run_label run >>= λ label. ok ((label, run) ∷ later)

  -- The rows that match a key, each with its label.
  abbrev pub labelled : AggregationKey → List (Fields F) → Result (List (String × Fields F))
  labelled key [] = ok []
  labelled key (run ∷ runs) = matches_aggregation_key run key >>= λ matches.
      labelled key runs >>= λ later. label_match matches run later

  -- The rows of a label.
  abbrev pub runs_with : String → List (String × Fields F) → List (Fields F)
  runs_with label [] = []
  runs_with label ((other, run) ∷ rows) =
      let later = runs_with label rows in if str_eq other label then run ∷ later else later

  abbrev extend : Option (List (Fields F)) → List (Fields F) → Option (List (Fields F))
  extend found [] = found
  extend found (run ∷ runs) = extend (some (joined found run)) runs

  extend-join_group :
      (grouped : Dict (List (Fields F))) (other label : String) (run : Fields F)
      (rows : List (String × Fields F))
      → extend (Dict.get (join_group grouped other run) label) (runs_with label rows)
        ≡ extend (Dict.get grouped label) (runs_with label ((other, run) ∷ rows))
  extend-join_group grouped other label run rows =
      rw (get-put grouped other label (joined (Dict.get grouped other) run))
        (elim (Bool-cases (str_eq other label)) [
          | inl e ↦
              let q : other ≡ label = ground (arith, eq_iff other label) in
              rw e
                (ap (λ l. extend (some (joined (Dict.get grouped l) run)) (runs_with label rows)) q)
          | inr e ↦ rw e refl
        ])

  -- The groups hold the labelled rows, each under its label, in their order.
  Grouped :
      AggregationKey → List (Fields F) → Dict (List (Fields F)) → Dict (List (Fields F)) → Type 0
  Grouped key runs grouped after =
      (rows : List (String × Fields F)) × (labelled key runs ≡ ok rows)
      × ((label : String)
          → Dict.get after label ≡ extend (Dict.get grouped label) (runs_with label rows))

  group_run-Grouped :
      (key : AggregationKey) (matches : Bool) (run : Fields F) (runs : List (Fields F))
      (grouped between after : Dict (List (Fields F)))
      → matches_aggregation_key run key ≡ ok matches
      → group_run matches run grouped ≡ ok between
      → Grouped key runs between after
      → Grouped key (run ∷ runs) grouped after
  unfolding Grouped
  group_run-Grouped key false run runs grouped between after m g (rows, e, k) = (
    rows,
    rw (m, e) refl,
    λ label.
        k label ∙ ap (λ d. extend (Dict.get d label) (runs_with label rows)) (sym (ok-injective g)),
  )
  group_run-Grouped key true run runs grouped between after m g (rows, e, k) =
      let (other, l, q) = >>=-eq-ok (run_label run) _ g in
      (
        (other, run) ∷ rows,
        rw (m, e, l) refl,
        λ label.
            k label
            ∙ ap (λ d. extend (Dict.get d label) (runs_with label rows)) (sym (ok-injective q))
            ∙ extend-join_group grouped other label run rows,
      )

  group_runs-Grouped :
      (key : AggregationKey) (runs : List (Fields F)) (grouped after : Dict (List (Fields F)))
      → group_runs key runs grouped ≡ ok after
      → Grouped key runs grouped after
  unfolding group_runs Grouped
  group_runs-Grouped key [] grouped after h =
      ([], refl, λ label. ap (λ d. Dict.get d label) (sym (ok-injective h)))
  group_runs-Grouped key (run ∷ runs) grouped after h =
      let (matches, m, g) = >>=-eq-ok (matches_aggregation_key run key) _ h in
      let (between, f, last) = >>=-eq-ok (group_run matches run grouped) _ g in
      group_run-Grouped key matches run runs grouped between after m f
        (group_runs-Grouped key runs between after last)

module _ (fl : Floats) (mean : List fl.Float → fl.Float) where
  -- The throughput of each run.
  abbrev pub throughputs : List (Fields fl.Float) → Result (List fl.Float)
  throughputs [] = ok []
  throughputs (run ∷ runs) = rps_of_run fl mean run >>= λ x. throughputs runs >>= λ xs. ok (x ∷ xs)

  -- What is reported of the runs of a label: as many runs, and the throughput of each, in order.
  abbrev pub Reports : List (Fields fl.Float) → Aggregate fl mean → Type 0
  Reports runs a = (a.run_count ≡ length runs) × (throughputs runs ≡ ok a.total_rps_values)

  abbrev Kept : Option (List (Fields fl.Float)) → Option (Aggregate fl mean) → Type 0
  Kept group found =
      ((group ≡ none) × (found ≡ none))
      ⊎ ((runs : List (Fields fl.Float)) × (group ≡ some runs)
          × ((a : Aggregate fl mean) × (found ≡ some a) × Reports runs a))

  -- Averages that are made are made of some labelled rows.
  pub aggregate_results-labelled :
      (results : List (Fields fl.Float)) (key : AggregationKey)
      (aggregated : Dict (Aggregate fl mean))
      → aggregate_results fl mean results key ≡ ok aggregated
      → (rows : List (String × Fields fl.Float)) × (labelled key results ≡ ok rows)
  unfolding aggregate_results Grouped
  aggregate_results-labelled results key aggregated h =
      let (grouped, e, g) = >>=-eq-ok (group_runs key results []) _ h in
      let (rows, l, k) = group_runs-Grouped key results [] grouped e in (rows, l)
