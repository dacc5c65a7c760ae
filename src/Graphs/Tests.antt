-- ===== src/Graphs/Tests.antt =====
-- Lines of a results file, and the theorem at them.
use resp_bench.Prelude.Dict.{Dict}
use resp_bench.Prelude.Dict
use resp_bench.Floats.Sample.{whole}
use resp_bench.Graphs.Aggregate.{Aggregate}
use resp_bench.Graphs.Charts.{Chart, Options, World}
use resp_bench.Graphs.Charts.Sourced.{Sourced}
use resp_bench.Prelude.{true, none, some, List, [], ◌∷◌, String}
use resp_bench.Prelude.Int.{ℤ, pos}
use resp_bench.Json.{Fields, text, obj, field, end, int, object, fields_of}
use resp_bench.Graphs.{Line, blank, broken, document, AggregationKey}

abbrev phase : String → Fields ℤ
phase status = field "id" (text "STEADY") (field "status" (text status) end)

abbrev row : String → Fields ℤ
row status =
    field "metadata" (obj (field "driver_id" (text "redis-py") end))
      (field "phase" (obj (phase status)) end)

abbrev lines : List (Line ℤ)
lines = blank ∷ broken ∷ document (obj (row "ERROR")) ∷ document (obj (row "COMPLETED")) ∷ []

abbrev loaded : List (Fields ℤ)
loaded =
    field "metadata" (obj (field "driver_id" (text "redis-py") end))
      (field "phase" (obj (phase "COMPLETED")) (field "_source_file" (text "a.ndjson") end))
    ∷ []

abbrev counted_row : Fields ℤ
counted_row = fields_of (
    ("metadata", object (("driver_id", text "jedis") ∷ []))
    ∷ ("phase", object (("duration_ms", int (pos 2000)) ∷ []))
    ∷ ("totals", object (("requests", int (pos 20)) ∷ []))
    ∷ [])

abbrev any_version : AggregationKey
any_version = record {
  commit_id = none;
  primary_driver_version = none;
  secondary_driver_version = none;
}

abbrev first_value : List ℤ → ℤ
first_value [] = pos 0
first_value (x ∷ xs) = x

abbrev averaged : Dict (Aggregate whole first_value)
averaged =
    (
      "jedis unknown",
      record {
        run_count = 2;
        total_rps_values = pos 10 ∷ pos 10 ∷ [];
        total_rps_avg = pos 10;
        commands = [];
      },
    )
    ∷ []

abbrev drawn_row : String → Fields ℤ
drawn_row status = fields_of (
    ("metadata", object (("driver_id", text "redis-py") ∷ ("commit_id", text "abc") ∷ []))
    ∷ (
      "phase",
      object
          (("id", text "STEADY") ∷ ("status", text status) ∷ ("duration_ms", int (pos 2000)) ∷ []),
    )
    ∷ ("totals", object (("requests", int (pos 20)) ∷ []))
    ∷ [])

abbrev world : World whole
world = record {
  glob = λ pattern. [];
  read = λ path.
      some
        (document (obj (drawn_row "ERROR")) ∷ blank ∷ document (obj (drawn_row "COMPLETED")) ∷ []);
  git = record { head = some "abc\n"; is_clean = true };
}

abbrev options : Options
options = record {
  results = "a.ndjson" ∷ [];
  phase = "STEADY";
  language = some "python";
  commit_id = none;
  primary_driver_version = none;
  secondary_driver_version = none;
  workload = none;
}

abbrev charts : List (Chart whole)
charts =
    record {
      file_name = "rps-total.png";
      title = "Total Workload Throughput";
      xlabel = "Requests per Second (RPS)";
      color = "#2196F3";
      bars = ("redis-py unknown (n=1)", pos 10) ∷ [];
    }
    ∷ []
