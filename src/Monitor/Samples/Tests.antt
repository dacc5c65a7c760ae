-- ===== src/Monitor/Samples/Tests.antt =====
-- Lines of /proc, what they are read as, and the theorem at three turns.
use resp_bench.Prelude.{◌≡◌, refl, none, some, [], ◌∷◌}
use resp_bench.Prelude.Int.{pos}
use resp_bench.Prelude.Results.{failure, ok, err}
use resp_bench.Floats.Sample.{whole}
use resp_bench.Monitor.{Entry, read_cpu_jiffies, read_process_group_rss}
use resp_bench.Monitor.Samples.{Turn, run_loop}
use resp_bench.Monitor.Samples.Deltas.{sum_deltas}

some_jiffies :
    read_cpu_jiffies ("cpu  10 1 5 70 4 0 0 0" ∷ "cpu0 1 2 3 4 5" ∷ []) ≡ ok (pos 90, pos 74)
unfolding read_cpu_jiffies
some_jiffies = refl

abbrev engine : Entry
engine = record {
  name = "42";
  stat = some "42 (make (sub)) S 1 40 40 0";
  status = some ("Name:\tmake" ∷ "VmRSS:\t     2 kB" ∷ []);
}

abbrev other : Entry
other = record engine { stat = some "43 (init) S 1 1 1 0" }

abbrev gone : Entry
gone = record engine { status = none }

group_memory :
    read_process_group_rss (some (pos 40)) (some (engine ∷ other ∷ gone ∷ engine ∷ []))
    ≡ some (pos 4096)
unfolding read_process_group_rss
group_memory = refl

abbrev turn : Turn
turn = record {
  stat = ok ("cpu 20 1 5 70 4" ∷ []);
  entries = none;
  meminfo = some ("MemTotal: 8 kB" ∷ "MemFree: 1 kB" ∷ "MemAvailable: 2 kB" ∷ []);
  write = ok tt;
}

abbrev unwritten : Turn
unwritten = record turn { write = err (failure "no space") }

abbrev later : Turn
later = record turn { stat = ok ("cpu 30 1 5 70 4" ∷ []) }

all_of_it :
    sum_deltas
      (run_loop whole (λ idle total. pos 0) none (turn ∷ unwritten ∷ later ∷ []) (pos 90, pos 74)).0
    ≡ pos 20
unfolding run_loop
all_of_it = refl
