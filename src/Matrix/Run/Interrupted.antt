-- ===== src/Matrix/Run/Interrupted.antt =====
-- A cell that an exception ends which the cell does not catch.
use resp_bench.Prelude.{ℕ, ◌≡◌, refl, arith, List, [], ◌∷◌, ◌++◌, length, String}
use resp_bench.Prelude.Dict.{Dict}
use resp_bench.Prelude.Results.{Exc, ok, err}
use resp_bench.Matrix.{Host}
use resp_bench.Matrix.Manifest.{Cell, failed_cells, summarize_cells}
use resp_bench.Matrix.Cell.{
  caught, escaped, finished, CellWorld, Guarded, Slot, Sweep, RunState, close_cell, guarded_cell,
  prepare_cell, run_cell,
}

module _ {F : Type 0} where
  length-failed_append :
      (cs : List (Cell F)) (c : Cell F)
      → c.status ≡ "ok"
      → length (failed_cells (cs ++ (c ∷ []))) ≡ length (failed_cells cs)
  unfolding failed_cells
  length-failed_append [] c e = rw e refl
  length-failed_append (d ∷ cs) c e = ground (arith, length-failed_append cs c e)

  close_cell-escaped :
      (slot : Slot F) (engine : String) (world : CellWorld F) (st : RunState F) (g : Guarded)
      (e : Exc)
      → g.1.0 ≡ escaped e
      → ((close_cell slot engine world st g).0 ≡ err e)
        × ((c : Cell F) × ((close_cell slot engine world st g).1.cells ≡ st.cells ++ (c ∷ []))
            × (c.status ≡ "ok"))
  unfolding close_cell
  close_cell-escaped slot engine world st (records, (caught f, files)) e h = absurd (cc h)
  close_cell-escaped slot engine world st (records, (escaped f, files)) e h =
      (cc h, (_, refl, refl))
  close_cell-escaped slot engine world st (records, (finished u, files)) e h = absurd (cc h)

  -- Where an exception ends a cell that the cell does not catch, as KeyboardInterrupt does while the
  -- engine runs, the sweep ends with it, but the cell is recorded with status ok, and the summary's
  -- failed count stays as it was before the cell.
  pub run_cell-escaped :
      (host : Host F) (sweep : Sweep F) (slot : Slot F) (world : CellWorld F) (st : RunState F)
      (engine : String) (env : Dict String) (cmd : List String) (e : Exc) (planned : ℕ)
      → prepare_cell host sweep slot world ≡ ok (engine, (env, cmd))
      → (guarded_cell sweep slot world env cmd st.files).1.0 ≡ escaped e
      → ((run_cell host sweep slot world st).0 ≡ err e)
        × ((c : Cell F) × ((run_cell host sweep slot world st).1.cells ≡ st.cells ++ (c ∷ []))
            × (c.status ≡ "ok"))
        × ((summarize_cells (run_cell host sweep slot world st).1.cells planned).failed
            ≡ (summarize_cells st.cells planned).failed)
  unfolding run_cell summarize_cells
  run_cell-escaped host sweep slot world st engine env cmd e planned made h =
      let (raised, (c, added, status)) =
        close_cell-escaped slot engine world st (guarded_cell sweep slot world env cmd st.files) e
          h in
      rw (made, run_cell)
        (raised, (c, added, status), rw added (length-failed_append st.cells c status))
