-- ===== src/Matrix/Generate.antt =====
-- The files of a cell: its workload and its driver configuration.
pub mod Values
use resp_bench.Prelude.{Bool, Option, none, some, List, [], ◌∷◌, String}
use resp_bench.Prelude.Dict.{Dict}
use resp_bench.Prelude.Results.{ill_typed, Result, ok, err, ◌>>=◌}
use resp_bench.Json.{
  Json, Items, Fields, arr, obj, nil, cons, end, get, put, update, need_dict, null, bool, int, real,
  text, field,
}
use resp_bench.Matrix.{Host, open_config_path, loaded}

module _ {F : Type 0} where
  -- `json.load` of a file that the matrix refers to
  unfoldable pub load_config : Host F → String → Result (Json F)
  unfolding open_config_path
  load_config host path_str =
      open_config_path host path_str >>= λ resolved. loaded (host.read resolved)

  -- `phase["connections"] = connections` for each phase
  abbrev pub connect_phases : Json F → Items F → Result (Items F)
  connect_phases connections nil = ok nil
  connect_phases connections (cons (obj phase) phases) =
      connect_phases connections phases >>= λ later.
      ok (cons (obj (put phase "connections" connections)) later)
  connect_phases connections (cons phase phases) = err ill_typed

  abbrev pub with_phases : Json F → Fields F → Option (Json F) → Result (Json F)
  with_phases connections workload none = ok (obj workload)
  with_phases connections workload (some (arr phases)) =
      connect_phases connections phases >>= λ changed.
      ok (obj (put workload "phases" (arr changed)))
  with_phases connections workload (some v) = err ill_typed

  unfoldable pub generate_workload : Host F → String → Json F → Result (Json F)
  unfolding load_config get put
  generate_workload host template_path connections = load_config host template_path >>= λ document.
      need_dict document >>= λ workload. with_phases connections workload (get workload "phases")

  abbrev pub specific_of : Option (Json F) → Result (Fields F)
  specific_of none = ok end
  specific_of (some v) = need_dict v

  abbrev pub overridden : Dict (Json F) → Json F → Result (Json F)
  overridden [] document = ok document
  overridden (o ∷ os) document = need_dict document >>= λ config.
      specific_of (get config "specific_driver_config") >>= λ sdc.
      ok (obj (put config "specific_driver_config" (obj (update sdc (o ∷ os)))))

  unfoldable pub generate_driver_config : Host F → String → Dict (Json F) → Result (Json F)
  unfolding load_config get put update
  generate_driver_config host base_config_path overrides =
      load_config host base_config_path >>= overridden overrides
