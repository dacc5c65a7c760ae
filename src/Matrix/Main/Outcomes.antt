-- ===== src/Matrix/Main/Outcomes.antt =====
-- What the exit code and the summary say of the cells.
use resp_bench.Prelude.{
  ℕ, ◌+◌, ◌≤◌, ◌≡◌, refl, sym, ap, ◌∙◌, Bool, true, Option, some, List, [], ◌∷◌, length, String,
  str_eq, eq_iff, arith,
}
use resp_bench.Prelude.Int.{pos_part}
use resp_bench.Prelude.Dict
use resp_bench.Prelude.Results.{ok}
use resp_bench.Floats.{Floats}
use resp_bench.Matrix.{Host, Outcome, refused, raised, done}
use resp_bench.Matrix.Dimensions.{DimensionSpec}
use resp_bench.Matrix.Parse.{MatrixConfig}
use resp_bench.Matrix.Series.{Combo, generate_series_combos}
use resp_bench.Matrix.Manifest.{Cell, Summary, failed_cells, summarize_cells}
use resp_bench.Matrix.Cell.{Slot}
use resp_bench.Matrix.Server.{Server}
use resp_bench.Matrix.Run.{schedule, World}
use resp_bench.Matrix.Server.{Server}
use resp_bench.Matrix.Run.Cells.{AllRecord, length-schedule, AllRecord-length}
use resp_bench.Matrix.Main.{run_matrix, Ending, exit_code, traceback, ending_of}
use resp_bench.Matrix.Main.Exits.{run_matrix-Complete}

module _ {F : Type 0} where
  failed-le : (cells : List (Cell F)) → length (failed_cells cells) ≤ length cells
  unfolding failed_cells
  failed-le [] = omega arith
  failed-le (c ∷ cells) = ground (arith, failed-le cells)

  -- The cell of a slot, with at least one record.
  abbrev pub Succeeded : Slot F → Cell F → Type 0
  Succeeded slot c =
      (c.iteration ≡ slot.iteration)
      × (c.x_value ≡ slot.x_value)
      × (c.label ≡ slot.combo.label)
      × (c.status ≡ "ok")
      × ((n : ℕ) × (c.records_written ≡ some n) × (1 ≤ n))

  abbrev pub AllSucceeded : List (Slot F) → List (Cell F) → Type 0
  AllSucceeded [] [] = Unit
  AllSucceeded [] (c ∷ cs) = ⊥
  AllSucceeded (s ∷ ss) [] = ⊥
  AllSucceeded (s ∷ ss) (c ∷ cs) = Succeeded s c × AllSucceeded ss cs

  none_failed :
      (slots : List (Slot F)) (cells : List (Cell F))
      → AllRecord slots cells
      → length (failed_cells cells) ≡ 0
      → AllSucceeded slots cells
  unfolding failed_cells
  none_failed [] [] a h = tt
  none_failed [] (c ∷ cs) a h = absurd a
  none_failed (s ∷ ss) [] a h = absurd a
  none_failed (s ∷ ss) (c ∷ cs) ((i, x, l, r), a) h =
      let (fine, later) : (str_eq c.status "ok" ≡ true) × (length (failed_cells cs) ≡ 0) =
        ground (arith, h) in
      let k : c.status ≡ "ok" = ground (arith, eq_iff c.status "ok", fine) in
      ((i, x, l, k, r k), none_failed ss cs a later)

module _ (fl : Floats) (host : Host fl.Float) (world : World fl host)
    (config : MatrixConfig fl) where
  -- The plan of a run and what became of it.
  abbrev pub Planned : (List (Slot fl.Float) → Type 0) → Type 0
  Planned P =
      (axis : DimensionSpec fl.Float) × (combos : List (Combo fl.Float)) × (Dict.get
          config.dimensions config.x_axis
        ≡ some axis)
      × (generate_series_combos fl host config ≡ ok combos)
      × P (schedule 1 (pos_part config.iterations) axis.values combos)

  abbrev code_of : Ending fl host → ℕ
  code_of (exit_code n) = n
  code_of (traceback e) = 1

  exit_ok-summary :
      (o : Outcome Summary)
      → ending_of fl host o ≡ exit_code 0
      → (s : Summary) × (o ≡ done s) × (s.failed ≡ 0)
  exit_ok-summary (refused m) h = absurd (omega (arith, ap code_of h))
  exit_ok-summary (raised e) h = absurd (cc h)
  exit_ok-summary (done s) h = (s, refl, ground (arith, ap code_of h))

  -- Exit code 0 means that every cell of the plan (each iteration with each value of the x axis and each
  -- series, in this order) was run and ended ok with at least one record in its metrics file.
  pub run_matrix-AllSucceeded :
      (output_dir : String) (server : Server) (run_id : Option String) (resume overwrite : Bool)
      → let after = run_matrix fl host world config output_dir server run_id resume overwrite in
        ending_of fl host after.answer ≡ exit_code 0
        → Planned (λ slots. AllSucceeded slots after.cells)
  unfolding summarize_cells
  run_matrix-AllSucceeded output_dir server run_id resume overwrite h =
      let (s, answered, none_of) = exit_ok-summary _ h in
      let (axis, combos, found, made, complete) =
        run_matrix-Complete fl host world config output_dir server run_id resume overwrite s
          answered in
      (
        axis,
        combos,
        found,
        made,
        none_failed _ _ complete.0 (sym (ap (λ x. x.failed) complete.1) ∙ none_of),
      )

  -- A run that is not ended by an exception attempts every cell that it planned, and its summary counts
  -- each of them once, as succeeded or as failed.
  pub run_matrix-summary :
      (output_dir : String) (server : Server) (run_id : Option String) (resume overwrite : Bool)
      (s : Summary)
      → let after = run_matrix fl host world config output_dir server run_id resume overwrite in
        after.answer ≡ done s
        → (s.attempted ≡ length after.cells)
          × (s.planned ≡ s.attempted)
          × (s.succeeded + s.failed ≡ s.planned)
          × (s.failed ≡ length (failed_cells after.cells))
  unfolding run_matrix summarize_cells
  run_matrix-summary output_dir server run_id resume overwrite s h =
      let (axis, combos, found, made, complete) =
        run_matrix-Complete fl host world config output_dir server run_id resume overwrite s h in
      let counts = complete.1 in
      let attempted = AllRecord-length _ _ complete.0 in
      let planned = length-schedule 1 (pos_part config.iterations) axis.values combos in
      let f = ap (λ x. x.failed) counts in
      let a = ap (λ x. x.attempted) counts in
      let p = ap (λ x. x.planned) counts in
      let t = ap (λ x. x.succeeded) counts in
      let bound =
        failed-le
          (run_matrix fl host world config output_dir server run_id resume overwrite).cells in
      (
        a,
        p ∙ sym planned ∙ sym attempted ∙ sym a,
        omega (arith, t, f, p, planned, attempted, bound),
        f,
      )
