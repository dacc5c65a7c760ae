-- ===== src/Interactive/Variants/Manifested.antt =====
-- What the interactive graphs read of the manifest that the matrix runner writes.
use resp_bench.Prelude.{
  ◌≡◌, ◌≢◌, refl, ap, ◌∙◌, Bool, Option, none, some, List, [], ◌∷◌, ◌++◌, String, str_eq, eq_iff,
  if◌then◌else◌, arith, All,
}
use resp_bench.Prelude.Dict
use resp_bench.Prelude.Dict.{Dict, get-put}
use resp_bench.Prelude.Paths.{stem}
use resp_bench.Prelude.Results.{Result, ok, ◌>>=◌}
use resp_bench.Floats.{Floats}
use resp_bench.Json.{Json, Fields, need_dict, end}
use resp_bench.Metrics.Writer.Readback.{get-fields_of}
use resp_bench.Matrix.Parse.{MatrixConfig}
use resp_bench.Matrix.Series.{Combo}
use resp_bench.Matrix.Manifest.{Cell, Summary, variant_info, variants_from, manifest}
use resp_bench.Interactive.Colors.{Palette}
use resp_bench.Interactive.Variants.{infer_driver_name, driver_in, known_driver}

module _ {F : Type 0} where
  -- Series of other labels leave a variant as it is.
  others_kept :
      (d : Dict (Json F)) (label : String) (combos : List (Combo F))
      → All (λ c. c.label ≢ label) combos
      → Dict.get (variants_from d combos) label ≡ Dict.get d label
  others_kept d label [] a = refl
  others_kept d label (c ∷ combos) a =
      others_kept (Dict.put d c.label (variant_info c)) label combos a.1
      ∙ ground (arith, get-put d c.label label (variant_info c), eq_iff c.label label, a.0)

  variant_kept :
      (d : Dict (Json F)) (before : List (Combo F)) (combo : Combo F) (after : List (Combo F))
      → All (λ c. c.label ≢ combo.label) after
      → Dict.get (variants_from d (before ++ (combo ∷ after))) combo.label
        ≡ some (variant_info combo)
  variant_kept d [] combo after a =
      let info = variant_info combo in
      others_kept (Dict.put d combo.label info) combo.label after a
      ∙ ground (arith, get-put d combo.label combo.label info, eq_iff combo.label combo.label)
  variant_kept d (b ∷ before) combo after a =
      variant_kept (Dict.put d b.label (variant_info b)) before combo after a

module _ (fl : Floats) (p : Palette) where
  -- Read back from the manifest of a run, a series is given the driver of its configuration, unless a
  -- later series has the same label.
  pub infer_driver_name-manifest :
      (config : MatrixConfig fl) (before : List (Combo fl.Float)) (combo : Combo fl.Float)
      (after : List (Combo fl.Float)) (run_id : Option String)
      (cells : Option (List (Cell fl.Float))) (summary : Option Summary) (resumed : Bool)
      → All (λ c. c.label ≢ combo.label) after
      → stem combo.driver_config ≢ ""
      → (need_dict (manifest fl config (before ++ (combo ∷ after)) run_id cells summary resumed)
          >>= λ read. infer_driver_name p combo.label (some read))
        ≡ ok (stem combo.driver_config)
  unfolding manifest infer_driver_name
  infer_driver_name-manifest config before combo after run_id cells summary resumed a named =
      let variants = variants_from [] (before ++ (combo ∷ after)) in
      let found = get-fields_of variants combo.label ∙ variant_kept [] before combo after a in
      let name = stem combo.driver_config in
      let shown : (if str_eq name "" then known_driver p combo.label else name) ≡ name =
        ground (arith, eq_iff name "", named) in
      ap (λ o. read_info o >>= driver_in p combo.label) found ∙ ap ok shown
    where
      read_info : Option (Json fl.Float) → Result (Option (Fields fl.Float))
      read_info o = (elim o [ none ↦ ok end | some v ↦ need_dict v ]) >>= λ info. ok (some info)
