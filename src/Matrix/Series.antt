-- ===== src/Matrix/Series.antt =====
-- The series of a matrix: `generate_series_combos`.
use resp_bench.Prelude.{◌||◌, none, some, List, [], ◌∷◌, ◌++◌, String, str_eq, if◌then◌else◌}
use resp_bench.Prelude.Dict.{Dict, put, sorted_items}
use resp_bench.Prelude.Dict
use resp_bench.Prelude.Paths.{stem, tail, replace}
use resp_bench.Prelude.Texts.{concat, join}
use resp_bench.Prelude.Results.{failure, ill_typed, Result, ok, err, ◌>>=◌, map_result}
use resp_bench.Floats.{Floats}
use resp_bench.Json.{Json, text, obj, entries}
use resp_bench.Matrix.{dim_driver_config, Host, str_of}
use resp_bench.Matrix.Dimensions.{DimensionSpec}
use resp_bench.Matrix.Parse.{MatrixConfig}
use resp_bench.Matrix.Combos.{
  FreeDims, applicable_dims, free_dims, binding_dims, product, add_bindings, assign,
}

pub record Combo (F : Type 0) : Type 0 where
  pub label : String
  pub driver_config : String
  pub params : Dict (Json F)
  pub bindings : Dict String

abbrev short_key : String → String
short_key k =
    replace (replace k "GLIDE_TOKIO_WORKER_THREADS" "tw") "GLIDE_CALLBACK_WORKER_THREADS" "cb"

abbrev binding_parts : Dict String → List String
binding_parts [] = []
binding_parts ((name, binding) ∷ bindings) =
    concat (name ∷ "=" ∷ tail binding ∷ []) ∷ binding_parts bindings

abbrev label_of : String → List String → String
label_of driver_label [] = driver_label
label_of driver_label (p ∷ ps) = concat (driver_label ∷ "@" ∷ join "," (p ∷ ps) ∷ [])

module _ {F : Type 0} where
  abbrev env_parts : Host F → Dict (Json F) → List String
  env_parts host [] = []
  env_parts host ((k, v) ∷ env) =
      concat (short_key k ∷ "=" ∷ str_of host v ∷ []) ∷ env_parts host env

  abbrev param_part : Host F → String → Json F → List String
  param_part host name (obj env) = env_parts host (sorted_items (entries env))
  param_part host name v = concat (name ∷ "=" ∷ str_of host v ∷ []) ∷ []

  abbrev param_parts : Host F → Dict (Json F) → List String
  param_parts host [] = []
  param_parts host ((name, v) ∷ params) = param_part host name v ++ param_parts host params

  unfoldable pub series_label : Host F → String → Dict (Json F) → Dict String → String
  unfolding replace sorted_items str_of join
  series_label host driver_label params bindings =
      label_of driver_label
        (param_parts host (sorted_items params) ++ binding_parts (sorted_items bindings))

  abbrev pub finish_combo :
      Host F → String → List (DimensionSpec F) → Dict (Json F) × Dict String → Result (Combo F)
  finish_combo host driver_cfg pure (params, bindings) =
      add_bindings bindings pure >>= λ all_bindings. ok record {
        label = series_label host (stem driver_cfg) params all_bindings;
        driver_config = driver_cfg;
        params = params;
        bindings = all_bindings;
      }

  -- The body of the loop over the product.
  unfoldable pub make_combo :
      Host F → String → List (DimensionSpec F) → Dict (Json F) → Result (Combo F)
  unfolding put add_bindings series_label stem
  make_combo host driver_cfg pure combo = finish_combo host driver_cfg pure (assign [] [] combo)

  -- The single series of a driver without free dimensions: its label names no binding.
  unfoldable pub single_series : String → List (DimensionSpec F) → Result (List (Combo F))
  unfolding add_bindings stem
  single_series driver_cfg pure = add_bindings [] pure >>= λ bindings. ok (
      record {
        label = stem driver_cfg;
        driver_config = driver_cfg;
        params = [];
        bindings = bindings;
      }
      ∷ [])

  abbrev pub combos_over :
      Host F → String → List (DimensionSpec F) → FreeDims F → Result (List (Combo F))
  combos_over host driver_cfg pure [] = single_series driver_cfg pure
  combos_over host driver_cfg pure (dim ∷ dims) =
      map_result (make_combo host driver_cfg pure) (product (dim ∷ dims))

  -- The series of one driver over the dimensions that apply to it.
  unfoldable pub driver_combos : Host F → String → List (DimensionSpec F) → Result (List (Combo F))
  unfolding free_dims binding_dims single_series make_combo product map_result
  driver_combos host driver_cfg applicable =
      combos_over host driver_cfg (binding_dims applicable) (free_dims applicable)

  abbrev pub combos_of_value : Host F → List (DimensionSpec F) → Json F → Result (List (Combo F))
  combos_of_value host dims (text driver_cfg) =
      applicable_dims dims driver_cfg >>= λ applicable. driver_combos host driver_cfg applicable
  combos_of_value host dims v = err ill_typed

  abbrev pub all_combos : Host F → List (DimensionSpec F) → List (Json F) → Result (List (Combo F))
  all_combos host dims [] = ok []
  all_combos host dims (v ∷ vs) = combos_of_value host dims v >>= λ combos.
      all_combos host dims vs >>= λ later. ok (combos ++ later)

  abbrev pub series_dims : String → Dict (DimensionSpec F) → List (DimensionSpec F)
  series_dims x_axis [] = []
  series_dims x_axis ((name, d) ∷ dims) =
      let later = series_dims x_axis dims in
      if str_eq name x_axis || str_eq name dim_driver_config then later else d ∷ later

unfoldable pub generate_series_combos :
    (fl : Floats) → Host fl.Float → MatrixConfig fl → Result (List (Combo fl.Float))
unfolding applicable_dims driver_combos Dict.get
generate_series_combos fl host config = elim (Dict.get config.dimensions dim_driver_config) [
  | none ↦ err (failure "'driver_config'")
  | some driver_dim ↦
      all_combos host (series_dims config.x_axis config.dimensions) driver_dim.values
]
