-- ===== src/Matrix/Run/Cells.antt =====
-- What the cells of a sweep record.
use mathlib.Core.List.{append-nil, append_assoc}
use resp_bench.Prelude.{
  ℕ, zero, suc, ◌+◌, ◌*◌, ◌≤◌, ◌≡◌, refl, sym, ap, ◌∙◌, Bool, true, false, Bool-cases, inl, inr,
  leb, leb_false→lt, some, List, [], ◌∷◌, ◌++◌, length, length-append, String, arith,
}
use resp_bench.Prelude.Int.{ℤ, pos, eqb_ℤ}
use resp_bench.Prelude.Dict.{Dict}
use resp_bench.Prelude.Results.{Result, ok, err}
use resp_bench.Json.{Json}
use resp_bench.Matrix.{Host}
use resp_bench.Matrix.Series.{Combo}
use resp_bench.Matrix.Results.{Files, count_ndjson_lines}
use resp_bench.Matrix.Manifest.{Cell}
use resp_bench.Matrix.Cell.{
  Attempt, caught, escaped, finished, CellWorld, Guarded, counted, exited, flushed, Slot, Sweep,
  RunState, close_cell, guarded_cell, prepare_cell, run_prepared, run_cell,
}
use resp_bench.Matrix.Run.{slots_for, slots_of_iteration, schedule, then_cells, run_cells}

-- A guarded part that finishes has counted a record.
abbrev Sound : Guarded → Type 0
Sound g = (g.1.0 ≡ finished tt) → (n : ℕ) × (g.0 ≡ some n) × (1 ≤ n)

counted-Sound : (path : String) (n : ℕ) (files : Files) → Sound (counted path n files)
counted-Sound path n files = elim (Bool-cases (leb n 0)) [
  | inl e ↦ rw e (λ h. cc h)
  | inr e ↦ λ h. (n, refl, leb_false→lt n 0 e)
]

exited-Sound :
    (failed_text : ℤ → String) (path name : String) (offset : ℕ) (r : Attempt ℤ × Files)
    → Sound (exited failed_text path name offset r)
exited-Sound failed_text path name offset (caught e, files) = λ h. cc h
exited-Sound failed_text path name offset (escaped e, files) = λ h. cc h
exited-Sound failed_text path name offset (finished code, files) =
    elim (Bool-cases (eqb_ℤ code (pos 0))) [
      | inl e ↦ rw e (counted-Sound path (count_ndjson_lines files name offset) files)
      | inr e ↦ rw e (λ h. cc h)
    ]

flushed-Sound :
    (needed : Bool) (flush : Attempt (Unit {0})) (files : Files) (next : Files → Guarded)
    → ((files' : Files) → Sound (next files'))
    → Sound (flushed needed flush files next)
flushed-Sound false flush files next s = s files
flushed-Sound true (caught e) files next s = λ h. cc h
flushed-Sound true (escaped e) files next s = λ h. cc h
flushed-Sound true (finished u) files next s = s files

module _ {F : Type 0} where
  -- The cell of a slot whose status, if it is ok, stands for at least one record.
  abbrev pub Records : Slot F → Cell F → Type 0
  Records slot c =
      (c.iteration ≡ slot.iteration)
      × (c.x_value ≡ slot.x_value)
      × (c.label ≡ slot.combo.label)
      × ((c.status ≡ "ok") → (n : ℕ) × (c.records_written ≡ some n) × (1 ≤ n))

  close_cell-Records :
      (slot : Slot F) (engine : String) (world : CellWorld F) (st : RunState F) (g : Guarded)
      → Sound g
      → (close_cell slot engine world st g).0 ≡ ok tt
      → (c : Cell F) × ((close_cell slot engine world st g).1.cells ≡ st.cells ++ (c ∷ []))
        × Records slot c
  unfolding close_cell
  close_cell-Records slot engine world st (records, (caught e, files)) s h =
      (_, refl, (refl, refl, refl, λ k. cc k))
  close_cell-Records slot engine world st (records, (escaped e, files)) s h = absurd (cc h)
  close_cell-Records slot engine world st (records, (finished tt, files)) s h =
      (_, refl, (refl, refl, refl, λ k. s refl))

  run_prepared-Records :
      (sweep : Sweep F) (slot : Slot F) (world : CellWorld F) (st : RunState F)
      (p : Result (String × (Dict String × List String)))
      → (run_prepared sweep slot world st p).0 ≡ ok tt
      → (c : Cell F) × ((run_prepared sweep slot world st p).1.cells ≡ st.cells ++ (c ∷ []))
        × Records slot c
  unfolding guarded_cell
  run_prepared-Records sweep slot world st (err e) h = absurd (cc h)
  run_prepared-Records sweep slot world st (ok (engine, (env, cmd))) h =
      close_cell-Records slot engine world st (guarded_cell sweep slot world env cmd st.files)
        (flushed-Sound (sweep.needs_flush slot.combo.driver_config) world.flush st.files _
          (λ files. exited-Sound (world.failed_text cmd) _ _ _ (world.engine cmd env files)))
        h

  abbrev pub AllRecord : List (Slot F) → List (Cell F) → Type 0
  AllRecord [] [] = Unit
  AllRecord [] (c ∷ cs) = ⊥
  AllRecord (s ∷ ss) [] = ⊥
  AllRecord (s ∷ ss) (c ∷ cs) = Records s c × AllRecord ss cs

  then_cells-ok :
      (r : Result (Unit {0}) × RunState F) (next : RunState F → Result (Unit {0}) × RunState F)
      → (then_cells r next).0 ≡ ok tt
      → (r.0 ≡ ok tt) × (then_cells r next ≡ next r.1)
  then_cells-ok (ok tt, st) next h = (refl, refl)
  then_cells-ok (err e, st) next h = absurd (cc h)

  -- The cells that a sweep adds, when no exception ends it, are those of its slots in turn.
  pub run_cells-AllRecord :
      (host : Host F) (sweep : Sweep F) (worlds : ℕ → CellWorld F) (i : ℕ) (slots : List (Slot F))
      (st : RunState F)
      → (run_cells host sweep worlds i slots st).0 ≡ ok tt
      → (cs : List (Cell F)) × ((run_cells host sweep worlds i slots st).1.cells ≡ st.cells ++ cs)
        × AllRecord slots cs
  unfolding run_cells run_cell
  run_cells-AllRecord host sweep worlds i [] st h = ([], sym (append-nil st.cells), tt)
  run_cells-AllRecord host sweep worlds i (slot ∷ slots) st h =
      let first = run_cell host sweep slot (worlds i) st in
      let (passed, same) = then_cells-ok first (run_cells host sweep worlds (suc i) slots) h in
      let (c, added, here) =
        run_prepared-Records sweep slot (worlds i) st (prepare_cell host sweep slot (worlds i))
          passed in
      let (cs, later, all) =
        run_cells-AllRecord host sweep worlds (suc i) slots first.1
          (ap (λ r. r.0) (sym same) ∙ h) in
      (
        c ∷ cs,
        ap (λ r. r.1.cells) same
            ∙ later
            ∙ ap (λ l. l ++ cs) added
            ∙ append_assoc st.cells (c ∷ []) cs,
        (here, all),
      )

  length-slots_for :
      (n : ℕ) (x : Json F) (combos : List (Combo F)) → length (slots_for n x combos) ≡ length combos
  length-slots_for n x [] = refl
  length-slots_for n x (combo ∷ combos) = ap suc (length-slots_for n x combos)

  length-slots_of_iteration :
      (n : ℕ) (xs : List (Json F)) (combos : List (Combo F))
      → length (slots_of_iteration n xs combos) ≡ length xs * length combos
  length-slots_of_iteration n [] combos = omega arith
  length-slots_of_iteration n (x ∷ xs) combos = ground (
    arith,
    length-append (slots_for n x combos) (slots_of_iteration n xs combos),
    length-slots_for n x combos,
    length-slots_of_iteration n xs combos,
  )

  pub length-schedule :
      (k n : ℕ) (xs : List (Json F)) (combos : List (Combo F))
      → length (schedule k n xs combos) ≡ length xs * length combos * n
  unfolding schedule
  length-schedule k zero xs combos = omega arith
  length-schedule k (suc n) xs combos = ground (
    arith,
    length-append (slots_of_iteration k xs combos) (schedule (k + 1) n xs combos),
    length-slots_of_iteration k xs combos,
    length-schedule (k + 1) n xs combos,
  )

  pub AllRecord-length :
      (slots : List (Slot F)) (cs : List (Cell F)) → AllRecord slots cs → length cs ≡ length slots
  AllRecord-length [] [] a = refl
  AllRecord-length [] (c ∷ cs) a = absurd a
  AllRecord-length (s ∷ ss) [] a = absurd a
  AllRecord-length (s ∷ ss) (c ∷ cs) a = ap suc (AllRecord-length ss cs a.1)
