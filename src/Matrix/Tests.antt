-- ===== src/Matrix/Tests.antt =====
-- A matrix of two cells with the recording driver, and the theorems at it.
use resp_bench.Prelude.{
  ℕ, ◌≡◌, ◌+◌, refl, false, Option, none, some, List, [], ◌∷◌, ◌++◌, length, String, str_eq,
  if◌then◌else◌, leb,
}
use resp_bench.Prelude.Int.{pos}
use resp_bench.Prelude.Dict.{Dict}
use resp_bench.Prelude.Dict
use resp_bench.Prelude.Texts.{concat, member}
use resp_bench.Prelude.Results.{keyboard_interrupt, ok, err}
use resp_bench.Floats.Sample.{whole}
use resp_bench.Json.{
  Json, Fields, null, int, text, arr, obj, nil, cons, end, field, object, items_of,
}
use resp_bench.Matrix.{Host, Read, document}
use resp_bench.Matrix.Dimensions.{DimensionSpec}
use resp_bench.Matrix.Parse.{MatrixConfig}
use resp_bench.Matrix.Combos.{FreeDims}
use resp_bench.Matrix.Series.{Combo}
use resp_bench.Matrix.Server.{Server, Ping, answered, unanswered}
use resp_bench.Matrix.Server.Preflight.{
  Credentials, driver_server_settings, preflight_server, non_standalone_modes,
}
use resp_bench.Matrix.Results.{absent}
use resp_bench.Matrix.Manifest.{Cell, Summary, failed_cells, summarize_cells}
use resp_bench.Matrix.Generate.{generate_workload, load_config}
use resp_bench.Matrix.Generate.Values.{Made, generate_workload-Made}
use resp_bench.Matrix.Cell.{
  finished, escaped, CellWorld, Slot, Sweep, RunState, prepare_cell, guarded_cell, run_cell,
}
use resp_bench.Matrix.Run.{World}
use resp_bench.Matrix.Run.Interrupted.{run_cell-escaped}
use resp_bench.Matrix.Main.{run_matrix}
use resp_bench.Matrix.Main.Outcomes.{
  AllSucceeded, Planned, run_matrix-AllSucceeded, run_matrix-summary,
}
use resp_bench.Matrix.Main.Refused.{Untouched, run_matrix-refused}

abbrev F : Type 0
F = whole.Float

abbrev file : String → Read F
file path =
    if str_eq path "w.json"
    then document (object (("phases", arr (items_of (object [] ∷ []))) ∷ []))
    else if str_eq path "m.json"
    then document (
        object (
          ("workload_template", text "w.json")
          ∷ ("iterations", int (pos 1))
          ∷ (
            "dimensions",
            object (
                ("connections", arr (items_of (int (pos 1) ∷ int (pos 2) ∷ [])))
                ∷ ("driver_config", text "d.json")
                ∷ []),
          )
          ∷ []))
    else document (object (("driver_id", text "recording") ∷ []))

abbrev host : Host F
host = record {
  is_file = λ p. member p ("w.json" ∷ "d.json" ∷ "m.json" ∷ []);
  repo_root = "/repo";
  read = file;
  str = λ v. "?";
  repr = λ v. "?";
}

abbrev list_dim : String → List (Json F) → DimensionSpec F
list_dim name vs = record { name = name; raw = arr (items_of vs); values = vs; applies_to = none }

abbrev pub config : MatrixConfig whole
config = record {
  description = text "";
  x_axis = "connections";
  iterations = pos 1;
  server_host = null;
  port = int (pos 6379);
  workload_template = text "w.json";
  cpu_interval = null;
  dimensions =
      ("connections", list_dim "connections" (int (pos 1) ∷ int (pos 2) ∷ []))
      ∷ (
        "driver_config",
        record {
          name = "driver_config";
          raw = text "d.json";
          values = text "d.json" ∷ [];
          applies_to = none;
        },
      )
      ∷ [];
}

abbrev written : Option String → String
written none = ""
written (some s) = s

-- An engine that writes one line to each metrics file.
abbrev cell_world : CellWorld F
cell_world = record {
  tmpdir = "/tmp";
  write_configs = λ workload driver. ok tt;
  flush = finished tt;
  engine = λ cmd env files. (
    finished (pos 0),
    Dict.put files "d.ndjson" (concat (written (Dict.get files "d.ndjson") ∷ "{}\n" ∷ [])),
  );
  failed_text = λ cmd code. "";
  started_at = null;
  duration_seconds = null;
}

abbrev at : Server
at = record { server_host = "h"; port = "1" }

abbrev world : World whole host
world = record {
  repr = λ s. s;
  dumps = λ c. "";
  json_text = λ v. "";
  default_run_id = "now";
  cli = none;
  project = "valkey";
  pings = λ cmd k. unanswered "";
  directory = none;
  link = absent;
  worlds = λ i. cell_world;
  write_first = ok tt;
  write_last = ok tt;
}

run_matrix-AllSucceeded_example : Planned whole host world config (λ slots.
    AllSucceeded slots (run_matrix whole host world config "out" at none false false).cells)
unfolding run_matrix driver_server_settings preflight_server non_standalone_modes summarize_cells
run_matrix-AllSucceeded_example =
    run_matrix-AllSucceeded whole host world config "out" at none false false refl

abbrev summary : Summary
summary = record { planned = 2; attempted = 2; succeeded = 2; failed = 0 }

run_matrix-summary_example :
    let cells = (run_matrix whole host world config "out" at none false false).cells in
    (summary.attempted ≡ length cells)
    × (summary.planned ≡ summary.attempted)
    × (summary.succeeded + summary.failed ≡ summary.planned)
    × (summary.failed ≡ length (failed_cells cells))
unfolding run_matrix driver_server_settings preflight_server non_standalone_modes summarize_cells
run_matrix-summary_example =
    run_matrix-summary whole host world config "out" at none false false summary refl

-- A run directory that holds results.
abbrev used : World whole host
used = record world { directory = some (("d.ndjson", "{}") ∷ []) }

run_matrix-refused_example :
    Untouched whole host used config
      (run_matrix whole host used config "out" at (some "r") false false)
unfolding run_matrix
run_matrix-refused_example =
    run_matrix-refused whole host used config "out" at (some "r") false _ refl

-- Two free dimensions.
abbrev dims : FreeDims F
dims = ("a", int (pos 1) ∷ int (pos 2) ∷ []) ∷ ("b", text "$a" ∷ []) ∷ []

abbrev two_dims : List (DimensionSpec F)
two_dims =
    list_dim "size" (int (pos 8) ∷ text "$connections" ∷ [])
    ∷ list_dim "pool" (text "$size" ∷ [])
    ∷ []

abbrev two_combos : List (Combo F)
two_combos =
    record {
      label = "d@size=8,pool=size";
      driver_config = "d.json";
      params = ("size", int (pos 8)) ∷ [];
      bindings = ("pool", "$size") ∷ [];
    }
    ∷ record {
      label = "d@pool=size,size=connections";
      driver_config = "d.json";
      params = [];
      bindings = ("size", "$connections") ∷ ("pool", "$size") ∷ [];
    }
    ∷ []

-- A server that answers the third PING.
abbrev late : ℕ → Ping
late k = if leb 3 k then answered (pos 0) "PONG\n" "" else unanswered "timed out"

abbrev settings : Dict (Option (Credentials F))
settings =
    ("a.json", some (end, end))
    ∷ ("b.json", none)
    ∷ ("c.json", some (field "password" (text "p") end, end))
    ∷ ("d.json", some (end, end))
    ∷ []

-- As `json.dumps` tells the credentials above from each other.
abbrev shown_credentials : Credentials F → String
shown_credentials (end, tls) = ""
shown_credentials (auth, tls) = "p"

-- The server answers the CLI alone, and at the third PING.
abbrev cli_pings : List String → ℕ → Ping
cli_pings [] k = unanswered ""
cli_pings (name ∷ args) k = if str_eq name "cli" then late k else unanswered "no such file"

abbrev template : Fields F
template = field "phases" (arr (cons (obj end) nil)) end

abbrev workload : Json F
workload =
    object (("phases", arr (items_of (object (("connections", int (pos 4)) ∷ []) ∷ []))) ∷ [])

generate_workload-Made_example :
    (old : Fields F) × (load_config host "w.json" ≡ ok (obj old)) × Made (int (pos 4)) old workload
unfolding generate_workload
generate_workload-Made_example = generate_workload-Made host "w.json" (int (pos 4)) workload refl

abbrev sweep : Sweep F
sweep = record {
  x_axis = "connections";
  server = "h:1";
  workload_template = text "w.json";
  results_dir = "out";
  needs_flush = λ path. false;
}

abbrev slot : Slot F
slot = record {
  iteration = 1;
  x_value = int (pos 1);
  combo = record { label = "d"; driver_config = "d.json"; params = []; bindings = [] };
}

abbrev interrupted : CellWorld F
interrupted = record cell_world { engine = λ cmd env files. (escaped keyboard_interrupt, files) }

abbrev before : RunState F
before = record { cells = []; files = [] }

abbrev cmd : List String
cmd =
    "make" ∷ "java-run" ∷ "SERVER=h:1" ∷ "DRIVER=/tmp/driver_d_1.json"
    ∷ "WORKLOAD=/tmp/workload_d_1.json" ∷ "METRICS_OUTPUT=out/d.ndjson" ∷ []

run_cell-escaped_example :
    ((run_cell host sweep slot interrupted before).0 ≡ err keyboard_interrupt)
    × ((c : Cell F) × ((run_cell host sweep slot interrupted before).1.cells ≡ [] ++ (c ∷ []))
        × (c.status ≡ "ok"))
    × ((summarize_cells (run_cell host sweep slot interrupted before).1.cells 2).failed
        ≡ (summarize_cells before.cells 2).failed)
unfolding prepare_cell guarded_cell
run_cell-escaped_example =
    run_cell-escaped host sweep slot interrupted before "java" [] cmd keyboard_interrupt 2 refl refl
