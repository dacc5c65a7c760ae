-- ===== src/Interactive/Tests.antt =====
-- Runs of the code at concrete inputs, over floats that happen to be whole: every numeral is 3, and the
-- standard deviation 1.
mod Charts
use resp_bench.Prelude.{
  Option, some, none, ℕ, ◌+◌, ◌<◌, ◌/◌, leb, ◌≡◌, refl, List, [], ◌∷◌, String, length, All, none,
}
use resp_bench.Prelude.Int.{ℤ, pos, ◌+ℤ◌, ◌-ℤ◌, ◌*ℤ◌, ltb_ℤ, pos_part, neg_part}
use resp_bench.Prelude.Results.{ok, ◌>>=◌}
use resp_bench.Floats.Sample.{whole}
use resp_bench.Interactive.Numbers.{Numeric}
use resp_bench.Prelude.Dict.{Dict}
use resp_bench.Json.{Fields, fields_of, object, obj, text, int, get, get_dict_or_empty}
use resp_bench.Graphs.{Line, blank, broken, document}
use resp_bench.Interactive.Records.{extract_steady_time_windows}
use resp_bench.Interactive.Records.Steady.{completed_rows}
use resp_bench.Interactive.Points.{Curves, OutlierMap, no_throughputs, add_throughput}
use resp_bench.Interactive.Layouts.{Entry, dir}
use resp_bench.Interactive.Loaders.{Stats}
use resp_bench.Interactive.Outliers.{mem, keep, votes, find_consensus_outliers}
use resp_bench.Interactive.Outliers.Consensus.{consensus_total, outliers_iff}

abbrev sum_of : List ℤ → ℤ
sum_of [] = pos 0
sum_of (x ∷ xs) = x +ℤ sum_of xs

abbrev pub numeric : Numeric whole
numeric = record {
  literal = λ s. pos 3;
  infinity = pos 1000000;
  neg = λ a. pos 0 -ℤ a;
  sub = λ a b. a -ℤ b;
  mul = λ a b. a *ℤ b;
  pow = λ a n. a;
  abs = λ a. pos (pos_part a + neg_part a);
  sqrt = λ a. a;
  log = λ a. a;
  ltb = ltb_ℤ;
  mean = λ xs. pos (pos_part (sum_of xs) / length xs);
  round = λ a n. a;
  modulo = λ a b. a;
  to_int = λ a. a;
  stdev = λ xs. pos 1;
}

abbrev runs : List ℤ
runs = pos 10 ∷ pos 10 ∷ pos 100 ∷ pos 11 ∷ pos 10 ∷ []

consensus_total_example :
    (s : List ℕ) × (find_consensus_outliers whole numeric runs ≡ ok s)
    × (All (λ i. i < length runs) s)
    × (length (keep s runs) + length s ≡ length runs)
consensus_total_example = consensus_total whole numeric runs

abbrev flags : List (List ℕ)
flags = (2 ∷ []) ∷ (2 ∷ []) ∷ (2 ∷ []) ∷ (2 ∷ []) ∷ []

outliers_iff_example : mem 2 (2 ∷ []) ≡ leb 2 (votes 2 flags)
unfolding find_consensus_outliers
outliers_iff_example =
    outliers_iff whole numeric runs (2 ∷ []) (2 ∷ []) (2 ∷ []) (2 ∷ []) (2 ∷ []) refl refl refl refl
      refl 2

-- A row of the phase STEADY.
abbrev row : String → ℤ → ℤ → Fields ℤ
row status duration requests = fields_of (
    (
      "phase",
      object (
          ("id", text "STEADY")
          ∷ ("status", text status)
          ∷ ("duration_ms", int duration)
          ∷ ("connections", int (pos 4))
          ∷ []),
    )
    ∷ ("totals", object (("requests", int requests) ∷ []))
    ∷ [])

abbrev pub lines : List (Line ℤ)
lines =
    blank
    ∷ document (obj (row "COMPLETED" (pos 2000) (pos 20)))
    ∷ document (obj (row "ERROR" (pos 1000) (pos 12)))
    ∷ broken
    ∷ []

abbrev completed : List (Fields ℤ)
completed = completed_rows "a.ndjson" (row "COMPLETED" (pos 2000) (pos 20) ∷ [])

abbrev results : Dict (Entry ℤ)
results =
    ("16-clients", dir (("jedis.ndjson", lines) ∷ []))
    ∷ ("4-clients", dir (("jedis.ndjson", lines) ∷ []))
    ∷ []

abbrev loaded : Curves whole × Stats × OutlierMap
loaded = (
  ("jedis", (pos 4, pos 11) ∷ (pos 16, pos 11) ∷ []) ∷ [],
  record { total_runs = 4; discarded_runs = 0; kept_runs = 4 },
  (("jedis", pos 16), []) ∷ (("jedis", pos 4), []) ∷ [],
)

-- A run that failed at once, before one that took two seconds.
abbrev timed_phase : ℤ → Fields ℤ
timed_phase duration = fields_of (
    ("id", text "STEADY")
    ∷ ("start_timestamp", text "1")
    ∷ ("finish_timestamp", text "2")
    ∷ ("duration_ms", int duration)
    ∷ [])

abbrev timed_row : ℤ → Fields ℤ
timed_row duration = fields_of (("phase", obj (timed_phase duration)) ∷ [])

abbrev from_iso : String → Option ℤ
from_iso s = some (pos 7)
