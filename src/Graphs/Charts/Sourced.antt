-- ===== src/Graphs/Charts/Sourced.antt =====
-- Where the charts of the script come from.
use resp_bench.Prelude.{◌≡◌, some, List, String, All}
use resp_bench.Prelude.Dict.{Dict}
use resp_bench.Prelude.Results.{ok}
use resp_bench.Floats.{Floats}
use resp_bench.Json.{Fields, text, get, get_dict_or_empty}
use resp_bench.Graphs.{AggregationKey}
use resp_bench.Graphs.Selected.{IsGood}
use resp_bench.Graphs.Aggregate.{Aggregate, aggregate_results}
use resp_bench.Graphs.Aggregate.Counted.{labelled}
use resp_bench.Graphs.Charts.{Chart, Options, World, commit_for, generate_graphs}

-- The key that rows must match.
abbrev key_for : String → Options → AggregationKey
key_for commit options = record {
  commit_id = some commit;
  primary_driver_version = options.primary_driver_version;
  secondary_driver_version = options.secondary_driver_version;
}

module _ {F : Type 0} where
  -- The row's metadata name the commit.
  abbrev pub IsOf : String → Fields F → Type 0
  IsOf commit row =
      (metadata : Fields F) × (get_dict_or_empty row "metadata" ≡ ok metadata)
      × (get metadata "commit_id" ≡ some (text commit))

module _ (fl : Floats) (mean : List fl.Float → fl.Float) where
  -- The charts are those of averages over rows of the phase, of a known commit, each of which completed
  -- or does not say how it ended. `chosen` are the rows that count, with their labels.
  pub record Sourced (world : World fl) (options : Options) (charts : List (Chart fl))
      : Type 0 where
    pub commit : String
    pub rows : List (Fields fl.Float)
    pub chosen : List (String × Fields fl.Float)
    pub averages : Dict (Aggregate fl mean)
    pub known : commit_for fl world options.commit_id ≡ some commit
    pub all_good : All (IsGood options.phase options.language) rows
    pub counted : labelled (key_for commit options) rows ≡ ok chosen
    pub of_commit : All (λ c. IsOf commit c.1) chosen
    pub averaged : aggregate_results fl mean rows (key_for commit options) ≡ ok averages
    pub drawn : charts ≡ generate_graphs fl mean averages options.workload
