-- ===== src/Engine/Phase.antt =====
-- One phase of `BenchmarkEngine` from its connections to its row, and `run`. What the drivers and
-- the event loop do is given for each phase: what each attempt to connect, each PING of the warmup,
-- the workers' run (Engine/Worker) and each close come to.
pub mod Rows
pub mod Status
pub mod Tests
use resp_bench.Prelude.{
  ℕ, zero, suc, ◌+◌, Bool, true, false, not, ◌&&◌, ◌||◌, ltb, if◌then◌else◌, Option, none, some,
  List, [], ◌∷◌, ◌++◌, String, str_eq,
}
use resp_bench.Prelude.Int.{ℤ, pos, pos_part, sub_ℕ, eqb_ℤ, ltb_ℤ}
use resp_bench.Prelude.Texts.{concat}
use resp_bench.Prelude.Results.{
  Exc, value_error, failure, ill_typed, cancelled, keyboard_interrupt, system_exit, is_exception,
  Result, ok, err, ◌>>=◌, ◌>>◌,
}
use resp_bench.Floats.{Floats}
use resp_bench.Config.Phase.{PhaseConfig, WorkloadConfig, effective_pipeline_depth}
use resp_bench.Command.{Command, TimedResult, create_all}
use resp_bench.Metrics.{Histograms, MetricsCollector, new_collector, start, stop}
use resp_bench.Metrics.Writer.{Times, Doc, NdjsonWriter, build_phase_json}

-- `await _gather_all_or_cancel(coros)`, of the results of the coroutines in the order in which they
-- end: it raises what the first of them raised that fails.
unfoldable pub gather_all_or_cancel : List (Result (Unit {0})) → Result (Unit {0})
gather_all_or_cancel [] = ok tt
gather_all_or_cancel (r ∷ rs) = r >> gather_all_or_cancel rs

-- How the exceptions read in the message of a failed warmup; those without a message read as nothing.
abbrev shown : Option Exc → String
shown (some (value_error m)) = m
shown (some (failure m)) = m
shown _ = ""

module _ (fl : Floats) (hs : Histograms) (ts : Times) (Client : Type 0) where
  pub record World : Type 0 where
    pub connect : ℕ → Result Client
    pub ping : Client → ℕ → Result TimedResult
    pub order : List Client → List Client
    pub workload :
        List Client
        → List (Command fl)
        → MetricsCollector hs
        → Result (Unit {0}) × MetricsCollector hs
    pub close : Client → Result (Unit {0})
    pub sockets_per_client : Client → ℤ
    pub started_at : ℕ
    pub late_start : ℕ
    pub stopped_at : ℕ
    pub written_at : ℕ

  -- The result of `_create_clients`, and the clients that it has opened.
  unfoldable pub create_clients : World → ℕ → ℕ → List Client → Result (List Client) × List Client
  create_clients world zero attempt opened = (ok opened, opened)
  create_clients world (suc n) attempt opened = elim (world.connect attempt) [
    | ok c ↦ create_clients world n (attempt + 1) (opened ++ (c ∷ []))
    | err e ↦ (err e, opened)
  ]

  -- The PINGs of one client from number `sent` on.
  unfoldable pub warm : World → Client → ℕ → ℕ → Result (Unit {0})
  warm world c zero sent = ok tt
  warm world c (suc n) sent =
      let rest = warm world c n (sent + 1) in
      world.ping c sent >>= λ r. elim r.error [
        | none ↦ rest
        | some e ↦ err (failure (concat ("Warmup PING failed: " ∷ shown (some e) ∷ [])))
      ]

  abbrev map_warm : World → ℕ → List Client → List (Result (Unit {0}))
  map_warm world n [] = []
  map_warm world n (c ∷ cs) = warm world c n 0 ∷ map_warm world n cs

  unfoldable pub warmup : World → List Client → ℕ → Result (Unit {0})
  unfolding gather_all_or_cancel warm
  warmup world clients n = gather_all_or_cancel (map_warm world n (world.order clients))

  -- The end of `_run_workload`, after the workers.
  unfoldable pub workload_status : Result (Unit {0}) → MetricsCollector hs → Result String
  workload_status (err keyboard_interrupt) c = ok "INTERRUPTED"
  workload_status (err e) c = if is_exception e then ok "ERROR" else err e
  workload_status (ok u) c =
      if ltb 0 c.total_requests && eqb_ℤ (sub_ℕ c.total_requests c.total_errors) (pos 0)
      then ok "ERROR"
      else ok "COMPLETED"

  -- What the guarded block of `_execute_phase` leaves: its status or exception, and the collector.
  abbrev pub Ended : Type 0
  Ended = Result String × MetricsCollector hs

  -- A phase that the loader accepts has a number of connections; a missing one is read as 0.
  abbrev pub connections_of : PhaseConfig fl → ℤ
  connections_of p = elim p.connections [ none ↦ pos 0 | some n ↦ n ]

  abbrev warmed : World → PhaseConfig fl → List Client → Result (Unit {0})
  warmed world p clients =
      if ltb_ℤ (pos 0) p.warmup_requests
      then warmup world clients (pos_part p.warmup_requests)
      else ok tt

  -- From `CommandFactory.create_all` on.
  abbrev pub with_clients : World → PhaseConfig fl → List Client → Ended
  with_clients world p clients =
      elim (create_all fl p.commands >>= λ cs. warmed world p clients >> ok cs) [
        | err e ↦ (err e, new_collector hs)
        | ok cs ↦
            let (gathered, c) =
              world.workload clients cs (start hs world.started_at (new_collector hs)) in
            (workload_status gathered c, c)
      ]

  abbrev pub after_connecting : World → PhaseConfig fl → Result (List Client) → List Client × Ended
  after_connecting world p (err e) = ([], (err e, new_collector hs))
  after_connecting world p (ok clients) = (clients, with_clients world p clients)

  -- The block, and the list `clients` as the `finally` clause sees it: it is still empty where
  -- `_create_clients` raises.
  unfoldable pub guarded : World → PhaseConfig fl → List Client × Ended
  unfolding create_clients warmup workload_status create_all start
  guarded world p =
      after_connecting world p (create_clients world (pos_part (connections_of p)) 0 []).0

  abbrev pub status_of : Result String → String
  status_of (ok s) = s
  status_of (err keyboard_interrupt) = "INTERRUPTED"
  status_of (err cancelled) = "INTERRUPTED"
  status_of (err e) = "ERROR"

  -- `collector.start()` where that did not happen, and `collector.stop()`.
  unfoldable pub closing_times : World → MetricsCollector hs → MetricsCollector hs
  unfolding start stop
  closing_times world c =
      stop hs world.stopped_at
        (elim c.start_time [ none ↦ start hs world.late_start c | some t ↦ c ])

  -- `_close_clients`: an Exception is logged, any other exception ends it.
  unfoldable pub close_clients : World → List Client → Result (Unit {0})
  close_clients world [] = ok tt
  close_clients world (c ∷ cs) =
      let rest = close_clients world cs in
      elim (world.close c) [ ok u ↦ rest | err e ↦ if is_exception e then rest else err e ]

  pub record EngineState : Type 0 where
    pub writer : NdjsonWriter fl hs ts
    pub had_error : Bool
    pub output : List (Doc fl hs ts)

  abbrev first_sockets : World → List Client → ℤ
  first_sockets world [] = pos 1
  first_sockets world (c ∷ cs) = world.sockets_per_client c

  abbrev pub row :
      World → PhaseConfig fl → NdjsonWriter fl hs ts → List Client × Ended → Doc fl hs ts
  row world p w (clients, (outcome, c)) =
      build_phase_json fl hs ts w world.written_at p.id (status_of outcome) (connections_of p)
        (closing_times world c) (effective_pipeline_depth fl p) (first_sockets world clients)

  abbrev pub raised_by : Result String → Result (Unit {0})
  raised_by (ok s) = ok tt
  raised_by (err e) = err e

  -- What stands after the `try` statement of `_execute_phase`.
  abbrev pub conclude :
      World
      → PhaseConfig fl
      → List Client × Ended
      → Result (Unit {0})
      → EngineState
      → Result (Unit {0}) × EngineState
  conclude world p g (err e) st = (err e, st)
  conclude world p g (ok u) st = (
    raised_by g.1.0,
    record st {
      had_error = if str_eq (status_of g.1.0) "COMPLETED" then st.had_error else true;
      output = st.output ++ (row world p st.writer g ∷ []);
    },
  )

  -- The clients that it closes are those of `guarded`.
  unfoldable pub execute_phase :
      World → PhaseConfig fl → EngineState → Result (Unit {0}) × EngineState
  unfolding guarded closing_times close_clients build_phase_json effective_pipeline_depth
  execute_phase world p st =
      let g = guarded world p in conclude world p g (close_clients world g.0) st

  abbrev pub unless_raised :
      Result (Unit {0})
      → EngineState
      → Result (Unit {0}) × EngineState
      → Result (Unit {0}) × EngineState
  unless_raised (err e) st later = (err e, st)
  unless_raised (ok u) st later = later

  -- `run`, after the metadata: the phases in turn, until one of them raises.
  unfoldable pub run_phases :
      List (World × PhaseConfig fl) → EngineState → Result (Unit {0}) × EngineState
  unfolding execute_phase
  run_phases [] st = (ok tt, st)
  run_phases ((world, p) ∷ rest) st =
      let (r, st') = execute_phase world p st in
      let later = run_phases rest st' in unless_raised r st' later
