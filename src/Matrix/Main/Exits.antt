-- ===== src/Matrix/Main/Exits.antt =====
-- What the answer of a run says of its cells.
use resp_bench.Prelude.{
  ◌≡◌, refl, sym, ap, subst, ◌∙◌, Bool, true, false, Option-cases, inl, inr, ◌==◌, if◌then◌else◌,
  Option, some, List, String,
}
use resp_bench.Prelude.Int.{pos_part}
use resp_bench.Prelude.Dict
use resp_bench.Prelude.Results.{Result, ok, err}
use resp_bench.Floats.{Floats}
use resp_bench.Json.{Json}
use resp_bench.Matrix.{Host, Outcome, refused, raised, done}
use resp_bench.Matrix.Dimensions.{DimensionSpec}
use resp_bench.Matrix.Parse.{MatrixConfig}
use resp_bench.Matrix.Series.{Combo, generate_series_combos}
use resp_bench.Matrix.Server.{Server}
use resp_bench.Matrix.Server.Preflight.{Settings}
use resp_bench.Matrix.Results.{Files, Directory, Link, files_of, prepare_results_dir}
use resp_bench.Matrix.Manifest.{Summary, summarize_cells}
use resp_bench.Matrix.Cell.{Sweep}
use resp_bench.Matrix.Run.{
  schedule, World, After, total_cells, concluded, started, preflighted, checked_server,
}
use resp_bench.Matrix.Run.Cells.{AllRecord, run_cells-AllRecord}
use resp_bench.Matrix.Main.{prepared, with_combos, run_matrix, run_id_or}

module _ (fl : Floats) (host : Host fl.Float) (world : World fl host)
    (config : MatrixConfig fl) where
  -- A run that answers with a summary has a cell for each slot of its plan.
  abbrev pub Complete :
      List (Json fl.Float) → List (Combo fl.Float) → After fl host → Summary → Type 0
  Complete xs combos after s =
      AllRecord (schedule 1 (pos_part config.iterations) xs combos) after.cells
      × (s ≡ summarize_cells after.cells (total_cells fl host config xs combos))

  concluded-done :
      (w r : Result (Unit {0})) (s s' : Summary)
      → concluded fl host w r s ≡ done s'
      → (r ≡ ok tt) × (s' ≡ s)
  concluded-done (err e) r s s' h = absurd (cc h)
  concluded-done (ok u) (err e) s s' h = absurd (cc h)
  concluded-done (ok u) (ok v) s s' h = (refl, cc h)

  started-Complete :
      (combos : List (Combo fl.Float)) (sweep : Sweep fl.Float) (xs : List (Json fl.Float))
      (run_id : String) (resume : Bool) (link : Link) (files : Files) (w : Result (Unit {0}))
      (s : Summary)
      → (started fl host world config combos sweep xs run_id resume link files w).answer ≡ done s
      → Complete xs combos
          (started fl host world config combos sweep xs run_id resume link files w)
          s
  started-Complete combos sweep xs run_id resume link files (err e) s h = absurd (cc h)
  started-Complete combos sweep xs run_id resume link files (ok u) s h =
      let (passed, same) = concluded-done world.write_last _ _ s h in
      let (cs, added, all) = run_cells-AllRecord host sweep world.worlds 0 _ _ passed in
      (subst (AllRecord (schedule 1 (pos_part config.iterations) xs combos)) (sym added) all, same)

  preflighted-Complete :
      (combos : List (Combo fl.Float)) (server : Server) (results_dir : String)
      (xs : List (Json fl.Float)) (run_id : String) (resume : Bool) (directory : Directory)
      (o : Outcome (Settings fl host × Option String)) (s : Summary)
      → (preflighted fl host world config combos server results_dir xs run_id resume directory
          o).answer
        ≡ done s
      → Complete xs combos
          (preflighted fl host world config combos server results_dir xs run_id resume directory o)
          s
  preflighted-Complete combos server results_dir xs run_id resume directory (refused m) s h =
      absurd (cc h)
  preflighted-Complete combos server results_dir xs run_id resume directory (raised e) s h =
      absurd (cc h)
  preflighted-Complete combos server results_dir xs run_id resume directory (done (settings, cli)) s
        h =
      started-Complete combos _ xs run_id resume _ (files_of directory) world.write_first s h

  prepared-Complete :
      (combos : List (Combo fl.Float)) (server : Server) (output_dir : String)
      (xs : List (Json fl.Float)) (run_id : String) (resume : Bool)
      (p : Outcome (Unit {0}) × Directory) (s : Summary)
      → (prepared fl host world config combos server output_dir xs run_id resume p).answer ≡ done s
      → Complete xs combos
          (prepared fl host world config combos server output_dir xs run_id resume p)
          s
  prepared-Complete combos server output_dir xs run_id resume (refused m, dir) s h = absurd (cc h)
  prepared-Complete combos server output_dir xs run_id resume (raised e, dir) s h = absurd (cc h)
  prepared-Complete combos server output_dir xs run_id resume (done u, dir) s h =
      preflighted-Complete combos server _ xs run_id resume dir
        (checked_server fl host world config combos server) s h

  not_stopped :
      (b : Bool) (message : String) (x y : After fl host) (s : Summary)
      → x.answer ≡ refused message
      → (if b then x else y).answer ≡ done s
      → (if b then x else y) ≡ y
  not_stopped true message x y s e h = absurd (cc (e, h))
  not_stopped false message x y s e h = refl

  with_combos-Complete :
      (server : Server) (output_dir : String) (xs : List (Json fl.Float)) (run_id : String)
      (resume overwrite : Bool) (r : Result (List (Combo fl.Float))) (s : Summary)
      → (with_combos fl host world config server output_dir xs run_id resume overwrite r).answer
        ≡ done s
      → (combos : List (Combo fl.Float)) × (r ≡ ok combos)
        × Complete xs combos
            (with_combos fl host world config server output_dir xs run_id resume overwrite r)
            s
  with_combos-Complete server output_dir xs run_id resume overwrite (err e) s h = absurd (cc h)
  with_combos-Complete server output_dir xs run_id resume overwrite (ok combos) s h =
      let run =
        prepared fl host world config combos server output_dir xs run_id resume
          (prepare_results_dir world.repr output_dir run_id resume overwrite world.directory) in
      let same = not_stopped (total_cells fl host config xs combos == 0) _ _ run s refl h in
      (
        combos,
        refl,
        subst (λ after. Complete xs combos after s) (sym same)
            (prepared-Complete combos server output_dir xs run_id resume _ s
              (ap (λ after. after.answer) (sym same) ∙ h)),
      )

  -- A run that answers with a summary has attempted the cells of its plan, one after the other; the
  -- summary counts them.
  pub run_matrix-Complete :
      (output_dir : String) (server : Server) (run_id : Option String) (resume overwrite : Bool)
      (s : Summary)
      → (run_matrix fl host world config output_dir server run_id resume overwrite).answer ≡ done s
      → (axis : DimensionSpec fl.Float) × (combos : List (Combo fl.Float)) × (Dict.get
            config.dimensions config.x_axis
          ≡ some axis)
        × (generate_series_combos fl host config ≡ ok combos)
        × Complete axis.values combos
            (run_matrix fl host world config output_dir server run_id resume overwrite)
            s
  unfolding run_matrix
  run_matrix-Complete output_dir server run_id resume overwrite s h =
      elim (Option-cases (Dict.get config.dimensions config.x_axis)) [
        | inl e ↦ absurd (cc (rw (e, run_matrix) at h))
        | inr (axis, e) ↦
            let (combos, made, complete) =
              with_combos-Complete server output_dir axis.values (run_id_or fl host world run_id)
                resume overwrite (generate_series_combos fl host config) s
                (rw (e, run_matrix) at h) in
            (axis, combos, e, made, rw (e, run_matrix) complete)
      ]
