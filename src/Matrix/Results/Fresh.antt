-- ===== src/Matrix/Results/Fresh.antt =====
-- What preparing the run directory does to the results in it.
use resp_bench.Prelude.{◌≡◌, ◌⊎◌, inl, inr, refl, Bool, true, false, List, [], ◌∷◌, String}
use resp_bench.Prelude.Results.{
  Result, ok, err, value_error, failure, ill_typed, cancelled, keyboard_interrupt, system_exit,
}
use resp_bench.Prelude.Texts.{concat}
use resp_bench.Matrix.{Outcome, done}
use resp_bench.Matrix.Results.{
  Directory, files_of, existing_result_files, guard_existing, with_run_id, prepare_results_dir,
  validate_run_id,
}

guard_existing-keeps :
    (results_dir : String) (resume : Bool) (existing : List String) (dir : Directory)
    → files_of (guard_existing results_dir resume false existing dir).1 ≡ files_of dir
guard_existing-keeps results_dir resume [] dir = refl
guard_existing-keeps results_dir true (e ∷ es) dir = refl
guard_existing-keeps results_dir false (e ∷ es) dir = refl

with_run_id-keeps :
    (r : Result String) (next : String → Outcome (Unit {0}) × Directory) (dir : Directory)
    → ((id : String) → files_of (next id).1 ≡ files_of dir)
    → files_of (with_run_id r next dir).1 ≡ files_of dir
with_run_id-keeps (ok id) next dir k = k id
with_run_id-keeps (err (value_error m)) next dir k = refl
with_run_id-keeps (err (failure m)) next dir k = refl
with_run_id-keeps (err ill_typed) next dir k = refl
with_run_id-keeps (err cancelled) next dir k = refl
with_run_id-keeps (err keyboard_interrupt) next dir k = refl
with_run_id-keeps (err system_exit) next dir k = refl

-- Without --overwrite, preparing the run directory changes no file in it, whether it is accepted or
-- refused.
pub prepare_results_dir-keeps :
    (repr : String → String) (output_dir run_id : String) (resume : Bool) (dir : Directory)
    → files_of (prepare_results_dir repr output_dir run_id resume false dir).1 ≡ files_of dir
unfolding prepare_results_dir
prepare_results_dir-keeps repr output_dir run_id resume dir =
    with_run_id-keeps (validate_run_id repr run_id) _ dir
      (λ id. guard_existing-keeps _ resume (existing_result_files dir) dir)

-- Results are merged only on request: a directory is accepted without --overwrite only if it holds no
-- results or --resume is set.
pub prepare_results_dir-accepts :
    (repr : String → String) (output_dir run_id : String) (resume : Bool) (dir : Directory)
    → (prepare_results_dir repr output_dir run_id resume false dir).0 ≡ done tt
    → (existing_result_files dir ≡ []) ⊎ (resume ≡ true)
unfolding prepare_results_dir
prepare_results_dir-accepts repr output_dir run_id resume dir h =
    accepted (validate_run_id repr run_id) resume (existing_result_files dir) h
  where
    accepted :
        (r : Result String) (resume : Bool) (existing : List String)
        → (with_run_id r
            (λ id. guard_existing (concat (output_dir ∷ "/" ∷ id ∷ [])) resume false existing dir)
            dir).0
          ≡ done tt
        → (existing ≡ []) ⊎ (resume ≡ true)
    accepted (ok id) resume [] h = inl refl
    accepted (ok id) true (e ∷ es) h = inr refl
    accepted (ok id) false (e ∷ es) h = absurd (cc h)
    accepted (err (value_error m)) resume existing h = absurd (cc h)
    accepted (err (failure m)) resume existing h = absurd (cc h)
    accepted (err ill_typed) resume existing h = absurd (cc h)
    accepted (err cancelled) resume existing h = absurd (cc h)
    accepted (err keyboard_interrupt) resume existing h = absurd (cc h)
    accepted (err system_exit) resume existing h = absurd (cc h)
