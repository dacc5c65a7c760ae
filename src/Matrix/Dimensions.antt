-- ===== src/Matrix/Dimensions.antt =====
-- Dimensions of a matrix and references to them: `DimensionSpec` and `resolve_binding`.
use resp_bench.Prelude.{
  Bool, true, false, not, ◌&&◌, ◌||◌, Option, none, some, List, [], ◌∷◌, String, str_eq,
  if◌then◌else◌, length, ◌==◌,
}
use resp_bench.Prelude.Dict.{Dict}
use resp_bench.Prelude.Dict
use resp_bench.Prelude.Glob.{fnmatch}
use resp_bench.Prelude.Paths.{starts_with, stem, tail}
use resp_bench.Prelude.Texts.{concat}
use resp_bench.Prelude.Results.{value_error, ill_typed, Result, ok, err, ◌>>=◌}
use resp_bench.Json.{Json, Fields, null, text, arr, obj, end, field, get, items, need_list}
use resp_bench.Matrix.{dim_driver_config}

module _ {F : Type 0} where
  -- `isinstance(v, str) and v.startswith("$")`
  abbrev pub is_binding : Json F → Bool
  is_binding (text s) = starts_with s "$"
  is_binding _ = false

  abbrev pub all_bindings : List (Json F) → Bool
  all_bindings [] = true
  all_bindings (v ∷ vs) = is_binding v && all_bindings vs

pub record DimensionSpec (F : Type 0) : Type 0 where
  pub name : String
  pub raw : Json F
  pub values : List (Json F)
  pub applies_to : Option (Fields F)

module _ {F : Type 0} where
  abbrev filter_of : Option (Json F) → Result (Option (Fields F))
  filter_of none = ok none
  filter_of (some null) = ok none
  filter_of (some (obj o)) = ok (some o)
  filter_of (some _) = err ill_typed

  abbrev single : String → Json F → DimensionSpec F
  single name v = record { name = name; raw = v; values = v ∷ []; applies_to = none }

  -- `values` that is no list, and `applies_to` that is no dict, are outside the model.
  abbrev extended : String → Fields F → Option (Json F) → Result (DimensionSpec F)
  extended name o none = ok (single name (obj o))
  extended name o (some values) = need_list values >>= λ vs.
      filter_of (get o "applies_to") >>= λ filter.
      ok record { name = name; raw = obj o; values = vs; applies_to = filter }

  unfoldable pub dimension_spec : String → Json F → Result (DimensionSpec F)
  unfolding get
  dimension_spec name (obj o) = extended name o (get o "values")
  dimension_spec name (arr vs) =
      ok record { name = name; raw = arr vs; values = items vs; applies_to = none }
  dimension_spec name v = ok (single name v)

  unfoldable pub is_binding_only : DimensionSpec F → Bool
  is_binding_only d = all_bindings d.values

  unfoldable pub is_scalar : DimensionSpec F → Bool
  unfolding is_binding_only
  is_scalar d = (length d.values == 1) && not (is_binding_only d)

  -- `any(fnmatch(basename, p) or fnmatch(full_path, p) for p in patterns)`
  abbrev any_match : String → List (Json F) → Result Bool
  any_match path [] = ok false
  any_match path (text p ∷ ps) =
      let rest = any_match path ps in
      if fnmatch (stem path) p || fnmatch path p then ok true else rest
  any_match path (v ∷ ps) = err ill_typed

  abbrev matches_filter : String → Fields F → Result Bool
  matches_filter path end = ok true
  matches_filter path (field k patterns rest) =
      let later = matches_filter path rest in
      if str_eq k dim_driver_config
      then (need_list patterns >>= λ ps.
          any_match path ps >>= λ found. if found then later else ok false)
      else later

  unfoldable pub matches_driver : DimensionSpec F → String → Result Bool
  unfolding fnmatch stem
  matches_driver d path = elim d.applies_to [
    | none ↦ ok true
    | some filter ↦ matches_filter path filter
  ]

  abbrev unknown_dimension : String → String → Result (Json F)
  unknown_dimension value ref_dim = err (
      value_error
        (concat ("Binding '" ∷ value ∷ "' references unknown dimension '" ∷ ref_dim ∷ "'" ∷ [])))

  abbrev looked_up : String → Dict (Json F) → Result (Json F)
  looked_up s resolved_values = elim (Dict.get resolved_values (tail s)) [
    | some v ↦ ok v
    | none ↦ unknown_dimension s (tail s)
  ]

  unfoldable pub resolve_binding : Json F → Dict (Json F) → Result (Json F)
  unfolding Dict.get
  resolve_binding (text s) resolved_values =
      if starts_with s "$" then looked_up s resolved_values else ok (text s)
  resolve_binding v resolved_values = ok v
