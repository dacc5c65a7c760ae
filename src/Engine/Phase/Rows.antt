-- ===== src/Engine/Phase/Rows.antt =====
-- What a phase writes, and which of its clients it closes.
use resp_bench.Prelude.{
  ℕ, zero, suc, ◌+◌, ◌≤◌, ◌<◌, ◌≡◌, ◌⊎◌, ◌∙◌, refl, ap, Bool, true, false, if◌then◌else◌, Option,
  some, List, [], ◌∷◌, ◌++◌, String, str_eq, length, length-append, arith, Option-cases, inl, inr,
}
use resp_bench.Prelude.Dict.{Dict}
use resp_bench.Prelude.Int.{ℤ, pos}
use resp_bench.Prelude.Results.{Exc, is_exception, Result, ok, err}
use resp_bench.Floats.{Floats}
use resp_bench.Json.{text, get}
use resp_bench.Config.Phase.{PhaseConfig}
use resp_bench.Metrics.{Histograms, MetricsCollector}
use resp_bench.Metrics.Writer.{Times, Doc, NdjsonWriter, build_phase_json, document, phase_block}
use resp_bench.Metrics.Writer.Readback.{at_path}
use resp_bench.Engine.Phase.{
  World, Ended, create_clients, guarded, after_connecting, closing_times, close_clients, status_of,
  raised_by, EngineState, row, conclude, execute_phase,
}

-- A close that fails with an Exception, if it fails.
abbrev pub IsQuiet : Result (Unit {0}) → Type 0
IsQuiet (ok u) = Unit
IsQuiet (err e) = is_exception e ≡ true

module _ (fl : Floats) (hs : Histograms) (ts : Times) (Client : Type 0) where
  quiet-step :
      (r : Result (Unit {0})) (rest : Result (Unit {0}))
      → IsQuiet r
      → (elim r [ ok u ↦ rest | err e ↦ if is_exception e then rest else err e ]) ≡ rest
  quiet-step (ok u) rest q = refl
  quiet-step (err e) rest q = rw q refl

  close_clients-ok :
      (world : World fl hs ts Client) (cs : List Client)
      → ((c : Client) → IsQuiet (world.close c))
      → close_clients fl hs ts Client world cs ≡ ok tt
  unfolding close_clients
  close_clients-ok world [] quiet = refl
  close_clients-ok world (c ∷ cs) quiet =
      quiet-step (world.close c) _ (quiet c) ∙ close_clients-ok world cs quiet

  -- A row with this status, and with real times.
  pub record IsRow (status : String) (d : Doc fl hs ts) : Type 0 where
    pub has_status : at_path ("phase" ∷ "status" ∷ []) d ≡ some (text status)
    pub started : (s : String) × (at_path ("phase" ∷ "start_timestamp" ∷ []) d ≡ some (text s))
    pub ended : (s : String) × (at_path ("phase" ∷ "finish_timestamp" ∷ []) d ≡ some (text s))

  IsRow-document :
      (b : Bool) (meta : Dict (Doc fl hs ts)) (rest : List (String × Doc fl hs ts))
      (id : Option String) (status : String) (n : ℤ) (start stop : ℕ) (c : MetricsCollector hs)
      (depth sockets : ℤ)
      → c.start_time ≡ some start
      → c.end_time ≡ some stop
      → IsRow status (
          document fl hs ts b meta
            (("phase", phase_block fl hs ts id status n c depth sockets) ∷ rest))
  unfolding phase_block get
  IsRow-document true meta rest id status n start stop c depth sockets s e = record {
    has_status = refl;
    started = (ts.iso8601 start, rw s refl);
    ended = (ts.iso8601 stop, rw e refl);
  }
  IsRow-document false meta rest id status n start stop c depth sockets s e = record {
    has_status = refl;
    started = (ts.iso8601 start, rw s refl);
    ended = (ts.iso8601 stop, rw e refl);
  }

  closed_times :
      (world : World fl hs ts Client) (c : MetricsCollector hs)
      → (t : ℕ) × ((closing_times fl hs ts Client world c).start_time ≡ some t)
        × ((closing_times fl hs ts Client world c).end_time ≡ some world.stopped_at)
  unfolding closing_times
  closed_times world c = elim (Option-cases c.start_time) [
    | inl e ↦ (world.late_start, rw e refl, refl)
    | inr (t, e) ↦ (t, rw e e, refl)
  ]

  row-IsRow :
      (world : World fl hs ts Client) (p : PhaseConfig fl) (w : NdjsonWriter fl hs ts)
      (g : List Client × Ended fl hs ts Client)
      → IsRow (status_of fl hs ts Client g.1.0) (row fl hs ts Client world p w g)
  unfolding build_phase_json
  row-IsRow world p w g =
      let (t, s, e) = closed_times world g.1.1 in
      IsRow-document _ _ _ p.id (status_of fl hs ts Client g.1.0) _ t world.stopped_at
        (closing_times fl hs ts Client world g.1.1) _ _ s e

  shown_execute :
      (world : World fl hs ts Client) (p : PhaseConfig fl) (st : EngineState fl hs ts Client)
      → execute_phase fl hs ts Client world p st
        ≡ conclude fl hs ts Client world p
            (guarded fl hs ts Client world p)
            (close_clients fl hs ts Client world (guarded fl hs ts Client world p).0)
            st
  unfolding execute_phase
  shown_execute world p st = refl

  -- If closing a client fails with an Exception at most, then a phase adds exactly one row to the output,
  -- which has the phase's status and real times of its start and end; the engine's error flag is set
  -- unless the status is COMPLETED; and the exception of the phase, if any, is raised again.
  pub execute_phase-IsRow :
      (world : World fl hs ts Client) (p : PhaseConfig fl) (st : EngineState fl hs ts Client)
      → ((c : Client) → IsQuiet (world.close c))
      → (d : Doc fl hs ts) × ((execute_phase fl hs ts Client world p st).1.output
          ≡ st.output ++ (d ∷ []))
        × IsRow (status_of fl hs ts Client (guarded fl hs ts Client world p).1.0) d
        × ((execute_phase fl hs ts Client world p st).1.had_error ≡ (
            if str_eq (status_of fl hs ts Client (guarded fl hs ts Client world p).1.0) "COMPLETED"
            then st.had_error
            else true))
        × ((execute_phase fl hs ts Client world p st).0
            ≡ raised_by fl hs ts Client (guarded fl hs ts Client world p).1.0)
  execute_phase-IsRow world p st quiet =
      let g = guarded fl hs ts Client world p in
      let e : execute_phase fl hs ts Client world p st
          ≡ conclude fl hs ts Client world p g (ok tt) st =
        shown_execute world p st
        ∙ ap (λ r. conclude fl hs ts Client world p g r st) (close_clients-ok world g.0 quiet) in
      (
        row fl hs ts Client world p st.writer g,
        ap (λ x. x.1.output) e,
        row-IsRow world p st.writer g,
        ap (λ x. x.1.had_error) e,
        ap (λ x. x.0) e,
      )

  eq_or_lt : (i j : ℕ) → i ≤ j → (i ≡ j) ⊎ (i < j)
  eq_or_lt i j h = ground arith

  create_clients-opens :
      (world : World fl hs ts Client) (n i j : ℕ) (opened : List Client) (client : ℕ → Client)
      (e : Exc)
      → ((k : ℕ) → k < j → world.connect k ≡ ok (client k))
      → world.connect j ≡ err e
      → i ≤ j
      → j < n + i
      → ((create_clients fl hs ts Client world n i opened).0 ≡ err e)
        × (length (create_clients fl hs ts Client world n i opened).1 + i ≡ length opened + j)
  unfolding create_clients
  create_clients-opens world zero i j opened client e good bad from to =
      absurd (omega (arith, from, to))
  create_clients-opens world (suc n) i j opened client e good bad from to =
      elim (eq_or_lt i j from) [
        | inl same ↦
            let b : world.connect i ≡ err e = rw same bad in
            rw (b, create_clients) (refl, omega (arith, same))
        | inr before ↦
            let (f, o) =
              create_clients-opens world n (i + 1) j (opened ++ (client i ∷ [])) client e good bad
                (omega (arith, before)) (omega (arith, to)) in
            rw (good i before, create_clients)
              (f, omega (arith, o, length-append opened (client i ∷ [])))
      ]

  -- A phase with `n` connections whose attempt number `j` to connect fails, after `j` clients were
  -- opened, closes none of these: the list that its cleanup runs over is empty.
  pub execute_phase-leaks :
      (world : World fl hs ts Client) (p : PhaseConfig fl) (n j : ℕ) (client : ℕ → Client) (e : Exc)
      → p.connections ≡ some (pos n)
      → ((k : ℕ) → k < j → world.connect k ≡ ok (client k))
      → world.connect j ≡ err e
      → j < n
      → (length (create_clients fl hs ts Client world n 0 []).1 ≡ j)
        × ((guarded fl hs ts Client world p).0 ≡ [])
  unfolding guarded
  execute_phase-leaks world p n j client e c good bad to =
      let (failed, opened) =
        create_clients-opens world n 0 j [] client e good bad (omega arith) (omega (arith, to)) in
      (
        omega (arith, opened),
        rw c (ap (λ r. (after_connecting fl hs ts Client world p r).0) failed),
      )
