-- ===== src/Monitor/Samples.antt =====
-- The samples of the monitor (`_run` and `_collect_sample`). The readings and the writes of the
-- thread are given for each turn of its loop.
pub mod Deltas
pub mod Tests
use resp_bench.Prelude.{Bool, true, false, Option, none, some, List, [], ◌∷◌, String, if◌then◌else◌}
use resp_bench.Prelude.Int.{ℤ, pos, ◌-ℤ◌, ltb_ℤ}
use resp_bench.Prelude.Results.{is_exception, Result, ok, err, ◌>>=◌}
use resp_bench.Floats.{Floats}
use resp_bench.Monitor.{Entry, read_cpu_jiffies, read_process_group_rss, read_system_memory}

-- One turn: the lines of /proc/stat, the entries of /proc, the lines of /proc/meminfo, and what writing
-- the sample comes to.
pub record Turn : Type 0 where
  pub stat : Result (List String)
  pub entries : Option (List Entry)
  pub meminfo : Option (List String)
  pub write : Result (Unit {0})

-- A sample without its time stamps and the number of cores, with the change that its percentage is
-- taken of.
pub record Sample (F : Type 0) : Type 0 where
  pub cpu_percent : F
  pub delta_total : ℤ
  pub memory_rss_bytes : Option ℤ
  pub memory_available_bytes : Option ℤ
  pub memory_total_bytes : Option ℤ

abbrev pub Jiffies : Type 0
Jiffies = ℤ × ℤ

abbrev pub jiffies : Result (List String) → Result Jiffies
jiffies stat = stat >>= read_cpu_jiffies

-- `percent idle total` is `round((1.0 - idle / total) * 100.0, 2)`.
module _ (fl : Floats) (percent : ℤ → ℤ → fl.Float) where
  abbrev zero_percent : fl.Float
  zero_percent = fl.of_int (pos 0)

  -- The percentage and the change of the total, and the new baseline.
  abbrev pub measured : Jiffies → Result Jiffies → (fl.Float × ℤ) × Jiffies
  measured (prev_total, prev_idle) (err e) = ((zero_percent, pos 0), (prev_total, prev_idle))
  measured (prev_total, prev_idle) (ok (now_total, now_idle)) =
      let delta_total = now_total -ℤ prev_total in
      let delta_idle = now_idle -ℤ prev_idle in
      (
        (
          if ltb_ℤ (pos 0) delta_total then percent delta_idle delta_total else zero_percent,
          delta_total,
        ),
        (now_total, now_idle),
      )

  abbrev sample_of :
      Option ℤ → (fl.Float × ℤ) × Jiffies → Option ℤ × Option ℤ → Sample fl.Float × Jiffies
  sample_of rss ((cpu, delta), now) (total, available) = (
    record {
      cpu_percent = cpu;
      delta_total = delta;
      memory_rss_bytes = rss;
      memory_available_bytes = available;
      memory_total_bytes = total;
    },
    now,
  )

  unfoldable pub collect_sample : Option ℤ → Turn → Jiffies → Result (Sample fl.Float × Jiffies)
  unfolding read_cpu_jiffies read_process_group_rss read_system_memory
  collect_sample pgid turn prev = read_system_memory turn.meminfo >>= λ memory. ok (
      sample_of (read_process_group_rss pgid turn.entries) (measured prev (jiffies turn.stat))
        memory)

  -- A sample that fails, or whose write fails, is left out, and the baseline stays.
  abbrev pub kept :
      Result (Sample fl.Float × Jiffies)
      → Jiffies
      → (Jiffies → List (Sample fl.Float) × Jiffies)
      → List (Sample fl.Float) × Jiffies
  kept (err e) prev later = later prev
  kept (ok (sample, now)) prev later = let (samples, last) = later now in (sample ∷ samples, last)

  -- The loop of the thread, over its turns until the stop event: the samples that are written, and the
  -- last baseline.
  unfoldable pub run_loop : Option ℤ → List Turn → Jiffies → List (Sample fl.Float) × Jiffies
  unfolding collect_sample
  run_loop pgid [] prev = ([], prev)
  run_loop pgid (turn ∷ turns) prev =
      kept (collect_sample pgid turn prev >>= λ made. turn.write >>= λ written. ok made) prev
        (run_loop pgid turns)

  abbrev pub baseline : Result Jiffies → Jiffies
  baseline (ok now) = now
  baseline (err e) = (pos 0, pos 0)

  unfoldable pub run : Option ℤ → Result (List String) → List Turn → List (Sample fl.Float)
  unfolding run_loop
  run pgid first turns = (run_loop pgid turns (baseline (jiffies first))).0
