-- ===== src/Matrix/Parse.antt =====
-- Reading a matrix configuration: `parse_matrix_config`.
use resp_bench.Prelude.{not, Option, none, some, List, [], ◌∷◌, ◌++◌, map, String}
use resp_bench.Prelude.Int.{ℤ, pos}
use resp_bench.Prelude.Dict.{Dict}
use resp_bench.Prelude.Dict
use resp_bench.Prelude.Texts.{concat, join}
use resp_bench.Prelude.Results.{value_error, ill_typed, Result, ok, err, raise_if, ◌>>=◌, ◌>>◌}
use resp_bench.Floats.{Floats}
use resp_bench.Config.Driver.{truthy}
use resp_bench.Json.{
  Json, Fields, null, int, text, arr, obj, end, field, get, need_dict, get_int_or,
  get_dict_or_empty, items_of,
}
use resp_bench.Matrix.{
  dim_connections, dim_driver_config, Host, resolve_config_path, loaded, str_of,
}
use resp_bench.Matrix.Dimensions.{DimensionSpec, dimension_spec}

module _ (fl : Floats) where
  pub record MatrixConfig : Type 0 where
    pub description : Json fl.Float
    pub x_axis : String
    pub iterations : ℤ
    pub server_host : Json fl.Float
    pub port : Json fl.Float
    pub workload_template : Json fl.Float
    pub cpu_interval : Json fl.Float
    pub dimensions : Dict (DimensionSpec fl.Float)

  unfoldable pub get_or : Fields fl.Float → String → Json fl.Float → Json fl.Float
  unfolding get
  get_or o k default = elim (get o k) [ none ↦ default | some v ↦ v ]

  unfoldable pub config_of :
      Json fl.Float → Fields fl.Float → ℤ → String → Dict (DimensionSpec fl.Float) → MatrixConfig
  unfolding get_or
  config_of interval raw iterations x_axis dimensions = record {
    description = get_or raw "description" (text "");
    x_axis = x_axis;
    iterations = iterations;
    server_host = get_or raw "server_host" null;
    port = get_or raw "port" (int (pos 6379));
    workload_template = get_or raw "workload_template" null;
    cpu_interval = get_or raw "cpu_interval" interval;
    dimensions = dimensions;
  }

  -- A null is no number of iterations.
  abbrev pub need_number : Option ℤ → Result ℤ
  need_number none = err ill_typed
  need_number (some n) = ok n

  unfoldable pub parse_dimensions : Fields fl.Float → Result (Dict (DimensionSpec fl.Float))
  unfolding dimension_spec
  parse_dimensions end = ok []
  parse_dimensions (field name spec rest) =
      dimension_spec name spec >>= λ d. parse_dimensions rest >>= λ ds. ok ((name, d) ∷ ds)

  module _ (host : Host fl.Float) where
    abbrev names : Dict (DimensionSpec fl.Float) → Json fl.Float
    names ds = arr (items_of (map (λ entry. text entry.0) ds))

    abbrev pub unknown_axis :
        {B : Type 0} → Json fl.Float → Dict (DimensionSpec fl.Float) → Result B
    unknown_axis x_axis ds = err (
        value_error (
          concat (
            "x_axis '"
            ∷ str_of host x_axis
            ∷ "' not found in dimensions: "
            ∷ host.repr (names ds)
            ∷ [])))

    -- An x_axis that is no text is no name of a dimension; a list or dict has no hash.
    abbrev pub axis_name : Json fl.Float → Dict (DimensionSpec fl.Float) → Result String
    axis_name (text s) ds = ok s
    axis_name (arr vs) ds = err ill_typed
    axis_name (obj o) ds = err ill_typed
    axis_name v ds = unknown_axis v ds

    -- The complaint about a reference to a file, if there is one.
    abbrev pub missing_file : String → Json fl.Float → List String
    missing_file label (text s) = elim (resolve_config_path host s) [
      | some resolved ↦ []
      | none ↦ concat (label ∷ ": " ∷ host.repr (text s) ∷ []) ∷ []
    ]
    missing_file label v = concat (label ∷ ": " ∷ host.repr v ∷ []) ∷ []

    abbrev pub missing_files : String → List (Json fl.Float) → List String
    missing_files label [] = []
    missing_files label (v ∷ vs) = missing_file label v ++ missing_files label vs

    abbrev pub no_missing : String → List String → Result (Unit {0})
    no_missing matrix_path [] = ok tt
    no_missing matrix_path (m ∷ ms) = err (
        value_error (
          concat (
            "matrix config '"
            ∷ matrix_path
            ∷ "' references files that do not exist:\n  "
            ∷ join "\n  " (m ∷ ms)
            ∷ [])))

    abbrev pub check_axis : MatrixConfig → Option (DimensionSpec fl.Float) → Result (Unit {0})
    check_axis c none = unknown_axis (text c.x_axis) c.dimensions
    check_axis c (some d) = ok tt

    abbrev pub check_files :
        String → MatrixConfig → Option (DimensionSpec fl.Float) → Result (Unit {0})
    check_files matrix_path c none = err (value_error "'driver_config' dimension is required")
    check_files matrix_path c (some d) =
        raise_if (not (truthy fl c.workload_template))
          (value_error "'workload_template' is required in matrix config")
        >> no_missing matrix_path (
            missing_file "workload_template" c.workload_template
            ++ missing_files dim_driver_config d.values)

    -- What stands under "Validation".
    unfoldable pub check_config : String → MatrixConfig → Result (Unit {0})
    unfolding resolve_config_path Dict.get
    check_config matrix_path c =
        check_axis c (Dict.get c.dimensions c.x_axis)
        >> check_files matrix_path c (Dict.get c.dimensions dim_driver_config)

    abbrev pub checked : String → MatrixConfig → Result MatrixConfig
    checked matrix_path c = check_config matrix_path c >> ok c

    -- `interval` is SYSTEM_MONITOR_INTERVAL.
    unfoldable pub parse_matrix_config : Json fl.Float → String → Result MatrixConfig
    unfolding get_or config_of parse_dimensions get_int_or get_dict_or_empty check_config
    parse_matrix_config interval matrix_path = loaded (host.read matrix_path) >>= λ document.
        need_dict document >>= λ raw. get_int_or raw "iterations" (pos 10) >>= λ read.
        need_number read >>= λ iterations. get_dict_or_empty raw "dimensions" >>= λ specs.
        parse_dimensions specs >>= λ dimensions.
        axis_name (get_or raw "x_axis" (text dim_connections)) dimensions >>= λ x_axis.
        checked matrix_path (config_of interval raw iterations x_axis dimensions)
