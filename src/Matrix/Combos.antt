-- ===== src/Matrix/Combos.antt =====
-- Free and binding dimensions, and the Cartesian product (`generate_series_combos`).
use resp_bench.Prelude.{List, [], ◌∷◌, ◌++◌, map, String, if◌then◌else◌}
use resp_bench.Prelude.Dict.{Dict, put}
use resp_bench.Prelude.Paths.{starts_with}
use resp_bench.Prelude.Results.{failure, ill_typed, Result, ok, err, ◌>>=◌}
use resp_bench.Json.{Json, text}
use resp_bench.Matrix.Dimensions.{DimensionSpec, is_binding, is_binding_only, matches_driver}

abbrev pub FreeDims : Type 0 → Type 0
FreeDims F = List (String × List (Json F))

module _ {F : Type 0} where
  -- The dimensions that apply to a driver.
  unfoldable pub applicable_dims : List (DimensionSpec F) → String → Result (List (DimensionSpec F))
  unfolding matches_driver
  applicable_dims [] driver_cfg = ok []
  applicable_dims (d ∷ ds) driver_cfg = matches_driver d driver_cfg >>= λ applies.
      applicable_dims ds driver_cfg >>= λ later. ok (if applies then d ∷ later else later)

  abbrev pub concrete_vals : List (Json F) → List (Json F)
  concrete_vals [] = []
  concrete_vals (v ∷ vs) = let rest = concrete_vals vs in if is_binding v then rest else v ∷ rest

  abbrev pub binding_vals : List (Json F) → List (Json F)
  binding_vals [] = []
  binding_vals (v ∷ vs) = let rest = binding_vals vs in if is_binding v then v ∷ rest else rest

  abbrev pub with_values : String → List (Json F) → FreeDims F → FreeDims F
  with_values name [] later = later
  with_values name (v ∷ vs) later = (name, v ∷ vs) ∷ later

  unfoldable pub free_dims : List (DimensionSpec F) → FreeDims F
  unfolding is_binding_only
  free_dims [] = []
  free_dims (d ∷ ds) =
      let later = free_dims ds in
      if is_binding_only d
      then later
      else with_values d.name (concrete_vals d.values ++ binding_vals d.values) later

  unfoldable pub binding_dims : List (DimensionSpec F) → List (DimensionSpec F)
  unfolding is_binding_only
  binding_dims [] = []
  binding_dims (d ∷ ds) =
      let later = binding_dims ds in if is_binding_only d then d ∷ later else later

  abbrev pub prepend_each : String → List (Json F) → List (Dict (Json F)) → List (Dict (Json F))
  prepend_each name [] combos = []
  prepend_each name (v ∷ vs) combos =
      map (λ combo. (name, v) ∷ combo) combos ++ prepend_each name vs combos

  -- `itertools.product`, each value with the name of its dimension: the last dimension changes fastest.
  unfoldable pub product : FreeDims F → List (Dict (Json F))
  product [] = [] ∷ []
  product ((name, vs) ∷ rest) = prepend_each name vs (product rest)

  -- `dim_spec.values[0]` of a dimension that has bindings only: an empty list has no first value.
  abbrev pub first_binding : List (Json F) → Result String
  first_binding [] = err (failure "list index out of range")
  first_binding (text s ∷ vs) = ok s
  first_binding (v ∷ vs) = err ill_typed

  unfoldable pub add_bindings : Dict String → List (DimensionSpec F) → Result (Dict String)
  unfolding put
  add_bindings bindings [] = ok bindings
  add_bindings bindings (d ∷ ds) =
      first_binding d.values >>= λ b. add_bindings (put bindings d.name b) ds

  abbrev add_param : Dict (Json F) → String → Json F → Dict (Json F)
  add_param params name v = if is_binding v then params else put params name v

  abbrev add_reference : Dict String → String → Json F → Dict String
  add_reference bindings name (text s) = if starts_with s "$" then put bindings name s else bindings
  add_reference bindings name v = bindings

  -- The params and bindings of one combination.
  abbrev pub assign : Dict (Json F) → Dict String → Dict (Json F) → Dict (Json F) × Dict String
  assign params bindings [] = (params, bindings)
  assign params bindings ((name, v) ∷ combo) =
      assign (add_param params name v) (add_reference bindings name v) combo
