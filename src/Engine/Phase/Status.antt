-- ===== src/Engine/Phase/Status.antt =====
-- Which phases end as COMPLETED, and what the engine's error flag says after a run.
use resp_bench.Prelude.{
  ℕ, ◌≤◌, ◌<◌, ◌≡◌, ◌↔◌, ◌∙◌, refl, ap, sym, true, false, List, [], ◌∷◌, String, eq_iff, arith,
  Bool-cases, inl, inr, ltb, leb, le→leb, ◌&&◌, All,
}
use resp_bench.Prelude.Int.{pos, sub_ℕ, eqb_ℤ}
use resp_bench.Prelude.Results.{
  value_error, failure, ill_typed, cancelled, keyboard_interrupt, system_exit, Result, ok, err,
}
use resp_bench.Floats.{Floats}
use resp_bench.Config.Phase.{PhaseConfig}
use resp_bench.Metrics.{Histograms, MetricsCollector}
use resp_bench.Metrics.Writer.{Times}
use resp_bench.Engine.Phase.{
  World, guarded, workload_status, status_of, EngineState, conclude, close_clients, execute_phase,
  run_phases, unless_raised,
}

no_success : (t e : ℕ) → e ≤ t → eqb_ℤ (sub_ℕ t e) (pos 0) ≡ leb t e
no_success t e h = rw (le→leb e t h) (ground (arith, h))

all_failed :
    (t e : ℕ)
    → e ≤ t
    → ((ltb 0 t && eqb_ℤ (sub_ℕ t e) (pos 0)) ≡ true → (1 ≤ t) × (t ≤ e))
      × ((ltb 0 t && eqb_ℤ (sub_ℕ t e) (pos 0)) ≡ false → 1 ≤ t → e < t)
all_failed t e h = rw (no_success t e h) (ground arith)

module _ (fl : Floats) (hs : Histograms) (ts : Times) (Client : Type 0) where
  abbrev pub status : World fl hs ts Client → PhaseConfig fl → String
  status world p = status_of fl hs ts Client (guarded fl hs ts Client world p).1.0

  -- For a collector with no more errors than requests, the workload's status is COMPLETED exactly if no
  -- worker failed and, where a request was made, some request succeeded.
  pub workload-completed_iff :
      (r : Result (Unit {0})) (c : MetricsCollector hs)
      → c.total_errors ≤ c.total_requests
      → (workload_status fl hs ts Client r c ≡ ok "COMPLETED")
        ↔ ((r ≡ ok tt) × ((1 ≤ c.total_requests) → c.total_errors < c.total_requests))
  unfolding workload_status
  workload-completed_iff (ok u) c h =
      let (bad, good) = all_failed c.total_requests c.total_errors h in
      elim (Bool-cases
        (ltb 0 c.total_requests && eqb_ℤ (sub_ℕ c.total_requests c.total_errors) (pos 0))) [
          | inl t ↦ let f = bad t in rw t (λ e. cc e, λ e. absurd (omega (arith, e.1 f.0, f.1)))
          | inr t ↦ rw t (λ e. (refl, good t), λ e. refl)
        ]
  workload-completed_iff (err keyboard_interrupt) c h = (λ e. cc e, λ e. cc (e.0))
  workload-completed_iff (err cancelled) c h = (λ e. cc e, λ e. cc (e.0))
  workload-completed_iff (err system_exit) c h = (λ e. cc e, λ e. cc (e.0))
  workload-completed_iff (err (value_error m)) c h = (λ e. cc e, λ e. cc (e.0))
  workload-completed_iff (err (failure m)) c h = (λ e. cc e, λ e. cc (e.0))
  workload-completed_iff (err ill_typed) c h = (λ e. cc e, λ e. cc (e.0))

  execute_phase-completed :
      (world : World fl hs ts Client) (p : PhaseConfig fl) (st : EngineState fl hs ts Client)
      → (execute_phase fl hs ts Client world p st).0 ≡ ok tt
      → (execute_phase fl hs ts Client world p st).1.had_error ≡ false
      → (st.had_error ≡ false) × (status world p ≡ "COMPLETED")
  unfolding execute_phase
  execute_phase-completed world p st =
      conclude-had_error (close_clients fl hs ts Client world (guarded fl hs ts Client world p).0)
    where
      conclude-had_error :
          (r : Result (Unit {0}))
          → (conclude fl hs ts Client world p (guarded fl hs ts Client world p) r st).0 ≡ ok tt
          → (conclude fl hs ts Client world p (guarded fl hs ts Client world p) r st).1.had_error
            ≡ false
          → (st.had_error ≡ false) × (status world p ≡ "COMPLETED")
      conclude-had_error (ok u) e h = ground (arith, h, eq_iff (status world p) "COMPLETED")
      conclude-had_error (err x) e h = absurd (cc e)

  later-completed :
      (r : Result (Unit {0})) (st : EngineState fl hs ts Client)
      (later : Result (Unit {0}) × EngineState fl hs ts Client)
      → (unless_raised fl hs ts Client r st later).0 ≡ ok tt
      → (r ≡ ok tt) × (unless_raised fl hs ts Client r st later ≡ later)
  later-completed (ok tt) st later h = (refl, refl)
  later-completed (err e) st later h = absurd (cc h)

  -- A run that raises nothing and leaves the error flag unset has brought every phase to COMPLETED.
  pub run_phases-completed :
      (phases : List (World fl hs ts Client × PhaseConfig fl)) (st : EngineState fl hs ts Client)
      → (run_phases fl hs ts Client phases st).0 ≡ ok tt
      → (run_phases fl hs ts Client phases st).1.had_error ≡ false
      → (st.had_error ≡ false) × All (λ wp. status wp.0 wp.1 ≡ "COMPLETED") phases
  unfolding run_phases
  run_phases-completed [] st e h = (h, tt)
  run_phases-completed ((world, p) ∷ rest) st e h =
      let (r, st') = execute_phase fl hs ts Client world p st in
      let (passed, same) = later-completed r st' (run_phases fl hs ts Client rest st') e in
      let (fine, all) =
        run_phases-completed rest st' (ap (λ x. x.0) (sym same) ∙ e)
          (ap (λ x. x.1.had_error) (sym same) ∙ h) in
      let (before, now) = execute_phase-completed world p st passed fine in (before, (now, all))
