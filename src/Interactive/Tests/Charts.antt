-- ===== src/Interactive/Tests/Charts.antt =====
-- The theorems on layouts, colours and traces at concrete inputs.
use resp_bench.Prelude.Paths.{stem}
use resp_bench.Prelude.{◌≡◌, refl, none, some, false, List, [], ◌∷◌, String, eq_iff, arith}
use resp_bench.Prelude.Int.{ℤ, pos}
use resp_bench.Prelude.Dict.{Dict}
use resp_bench.Prelude.Results.{ok, ◌>>=◌}
use resp_bench.Floats.Sample.{whole}
use resp_bench.Json.{int, need_dict}
use resp_bench.Matrix.Series.{Combo}
use resp_bench.Matrix.Manifest.{manifest}
use resp_bench.Matrix.Tests.{config}
use resp_bench.Interactive.Layouts.{Entry, file, dir, flat, detect_layout}
use resp_bench.Interactive.Layouts.Detected.{NothingLost, detect_layout-NothingLost}
use resp_bench.Interactive.Colors.{first_palette, get_driver_color}
use resp_bench.Interactive.Tests.{numeric, lines}
use resp_bench.Interactive.Assign.{Variants, no_variants, put_label, override}
use resp_bench.Interactive.Main.{Report}
use resp_bench.Interactive.Traces.{Drawn}
use resp_bench.Interactive.Variants.{infer_driver_name}
use resp_bench.Interactive.Variants.Manifested.{infer_driver_name-manifest}

abbrev flat_results : Dict (Entry ℤ)
flat_results = ("_manifest.json", file []) ∷ ("logs", dir []) ∷ ("jedis.ndjson", file []) ∷ []

detect_layout-NothingLost_example : NothingLost flat flat_results
unfolding detect_layout
detect_layout-NothingLost_example = detect_layout-NothingLost flat_results flat refl

abbrev drawn_drivers : List String
drawn_drivers = "redis-py" ∷ "lettuce" ∷ "jedis" ∷ []

abbrev jedis_combo : Combo ℤ
jedis_combo = record {
  label = "jedis@size=8";
  driver_config = "configs/jedis.json";
  params = ("size", int (pos 8)) ∷ [];
  bindings = [];
}

abbrev plain_combo : Combo ℤ
plain_combo = record {
  label = "jedis";
  driver_config = "configs/jedis.json";
  params = [];
  bindings = [];
}

infer_driver_name-manifest_example :
    (need_dict (manifest whole config (jedis_combo ∷ plain_combo ∷ []) none none none false)
      >>= λ read. infer_driver_name first_palette "jedis@size=8" (some read))
    ≡ ok "jedis"
unfolding stem
infer_driver_name-manifest_example =
    infer_driver_name-manifest whole first_palette config [] jedis_combo (plain_combo ∷ []) none
      none none false (λ q. ground (arith, eq_iff "jedis" "jedis@size=8", q), tt)
      (λ q. ground (arith, eq_iff "jedis" "", q))

-- A run of the script over one series of two runs, without a manifest.
abbrev run_results : Dict (Entry ℤ)
run_results = ("redis-py.ndjson", file lines) ∷ []

abbrev labelled : Variants
labelled = put_label no_variants "redis-py" "#795548" "solid" "other" "redis-py"

abbrev report : Report whole numeric (λ v. "?") (λ t. none)
report = record {
  curves = ("redis-py", (pos 4, pos 11) ∷ []) ∷ [];
  stats = record { total_runs = 2; discarded_runs = 0; kept_runs = 2 };
  latency_data = [];
  latency_commands = [];
  cpu_data = none;
  driver_versions =
      (
        "redis-py",
        record {
          primary_version = none;
          secondary_id = none;
          secondary_version = none;
          label = "redis-py";
        },
      )
      ∷ [];
  reference = "spring-data-valkey-glide";
  palette = override (get_driver_color first_palette "redis-py").1 labelled;
}
