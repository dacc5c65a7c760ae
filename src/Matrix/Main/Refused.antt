-- ===== src/Matrix/Main/Refused.antt =====
-- A run that is refused.
use resp_bench.Prelude.{
  ◌≡◌, refl, Bool, true, false, Option-cases, inl, inr, ◌==◌, if◌then◌else◌, Option, List, [],
  String,
}
use resp_bench.Prelude.Dict
use resp_bench.Prelude.Results.{Result, ok, err}
use resp_bench.Floats.{Floats}
use resp_bench.Json.{Json}
use resp_bench.Matrix.{Host, Outcome, refused, raised, done}
use resp_bench.Matrix.Parse.{MatrixConfig}
use resp_bench.Matrix.Series.{Combo, generate_series_combos}
use resp_bench.Matrix.Server.{Server}
use resp_bench.Matrix.Server.Preflight.{Settings}
use resp_bench.Matrix.Results.{Files, Directory, Link, files_of}
use resp_bench.Matrix.Results.Fresh.{prepare_results_dir-keeps}
use resp_bench.Matrix.Manifest.{Summary}
use resp_bench.Matrix.Cell.{Sweep}
use resp_bench.Matrix.Run.{
  World, After, total_cells, concluded, started, preflighted, checked_server,
}
use resp_bench.Matrix.Main.{prepared, with_combos, run_matrix, run_id_or}

module _ (fl : Floats) (host : Host fl.Float) (world : World fl host)
    (config : MatrixConfig fl) where
  -- No cell was run, and the link and the files of the run directory are as they were.
  abbrev pub Untouched : After fl host → Type 0
  Untouched after =
      (after.cells ≡ [])
      × (after.link ≡ world.link)
      × (files_of after.directory ≡ files_of world.directory)

  concluded-not_refused :
      (w r : Result (Unit {0})) (s : Summary) (m : String) → concluded fl host w r s ≡ refused m → ⊥
  concluded-not_refused (err e) r s m h = cc h
  concluded-not_refused (ok u) (err e) s m h = cc h
  concluded-not_refused (ok u) (ok v) s m h = cc h

  started-not_refused :
      (combos : List (Combo fl.Float)) (sweep : Sweep fl.Float) (xs : List (Json fl.Float))
      (run_id : String) (resume : Bool) (link : Link) (files : Files) (w : Result (Unit {0}))
      (m : String)
      → (started fl host world config combos sweep xs run_id resume link files w).answer ≡ refused m
      → ⊥
  started-not_refused combos sweep xs run_id resume link files (err e) m h = cc h
  started-not_refused combos sweep xs run_id resume link files (ok u) m h =
      concluded-not_refused world.write_last _ _ m h

  preflighted-refused :
      (combos : List (Combo fl.Float)) (server : Server) (results_dir : String)
      (xs : List (Json fl.Float)) (run_id : String) (resume : Bool) (dir : Directory)
      (o : Outcome (Settings fl host × Option String)) (m : String)
      → files_of dir ≡ files_of world.directory
      → (preflighted fl host world config combos server results_dir xs run_id resume dir o).answer
        ≡ refused m
      → Untouched
          (preflighted fl host world config combos server results_dir xs run_id resume dir o)
  preflighted-refused combos server results_dir xs run_id resume dir (refused n) m k h =
      (refl, refl, k)
  preflighted-refused combos server results_dir xs run_id resume dir (raised e) m k h =
      absurd (cc h)
  preflighted-refused combos server results_dir xs run_id resume dir (done (settings, cli)) m k h =
      absurd (started-not_refused combos _ xs run_id resume _ (files_of dir) world.write_first m h)

  prepared-refused :
      (combos : List (Combo fl.Float)) (server : Server) (output_dir : String)
      (xs : List (Json fl.Float)) (run_id : String) (resume : Bool)
      (p : Outcome (Unit {0}) × Directory) (m : String)
      → files_of p.1 ≡ files_of world.directory
      → (prepared fl host world config combos server output_dir xs run_id resume p).answer
        ≡ refused m
      → Untouched (prepared fl host world config combos server output_dir xs run_id resume p)
  prepared-refused combos server output_dir xs run_id resume (refused n, dir) m k h =
      (refl, refl, k)
  prepared-refused combos server output_dir xs run_id resume (raised e, dir) m k h = absurd (cc h)
  prepared-refused combos server output_dir xs run_id resume (done u, dir) m k h =
      preflighted-refused combos server _ xs run_id resume dir
        (checked_server fl host world config combos server) m k h

  empty_or_refused :
      (b : Bool) (x y : After fl host) (m : String)
      → Untouched x
      → (y.answer ≡ refused m → Untouched y)
      → (if b then x else y).answer ≡ refused m
      → Untouched (if b then x else y)
  empty_or_refused true x y m u k h = u
  empty_or_refused false x y m u k h = k h

  with_combos-refused :
      (server : Server) (output_dir : String) (xs : List (Json fl.Float)) (run_id : String)
      (resume : Bool) (r : Result (List (Combo fl.Float))) (m : String)
      → (with_combos fl host world config server output_dir xs run_id resume false r).answer
        ≡ refused m
      → Untouched (with_combos fl host world config server output_dir xs run_id resume false r)
  with_combos-refused server output_dir xs run_id resume (err e) m h = absurd (cc h)
  with_combos-refused server output_dir xs run_id resume (ok combos) m h =
      empty_or_refused (total_cells fl host config xs combos == 0) _ _ m (refl, refl, refl)
        (prepared-refused combos server output_dir xs run_id resume _ m
          (prepare_results_dir-keeps world.repr output_dir run_id resume world.directory))
        h

  -- A run without --overwrite that a PreflightError ends has run no cell, and leaves the link and the
  -- files in the run directory as they were; the directory itself may have been made.
  pub run_matrix-refused :
      (output_dir : String) (server : Server) (run_id : Option String) (resume : Bool) (m : String)
      → (run_matrix fl host world config output_dir server run_id resume false).answer ≡ refused m
      → Untouched (run_matrix fl host world config output_dir server run_id resume false)
  unfolding run_matrix
  run_matrix-refused output_dir server run_id resume m h =
      elim (Option-cases (Dict.get config.dimensions config.x_axis)) [
        | inl e ↦ absurd (cc (rw (e, run_matrix) at h))
        | inr (axis, e) ↦
            rw (e, run_matrix)
              (with_combos-refused server output_dir axis.values (run_id_or fl host world run_id)
                resume (generate_series_combos fl host config) m (rw (e, run_matrix) at h))
      ]
