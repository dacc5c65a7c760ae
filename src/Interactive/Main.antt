-- ===== src/Interactive/Main.antt =====
-- The script as a whole, up to what the HTML is made from (scripts/generate_interactive_graphs.py,
-- `main`). `shown` is the text that an f-string has for a value, and `from_iso` the time of an ISO text.
pub mod Drawn
use resp_bench.Prelude.{
  Bool, true, false, not, Option, none, some, List, [], ◌∷◌, String, str_eq, if◌then◌else◌,
}
use resp_bench.Prelude.Dict.{Dict}
use resp_bench.Prelude.Dict
use resp_bench.Prelude.Texts.{sorted_set}
use resp_bench.Prelude.Results.{system_exit, ill_typed, Result, ok, err, ◌>>=◌}
use resp_bench.Floats.{Floats}
use resp_bench.Config.Driver.{truthy}
use resp_bench.Json.{Json, Fields, text, get, entries, need_dict}
use resp_bench.Interactive.Numbers.{Numeric}
use resp_bench.Interactive.Colors.{Palette, first_palette}
use resp_bench.Interactive.Assign.{Variants, assign_variant_colors, override}
use resp_bench.Interactive.Points.{OutlierMap, Curves, LatencyCurves}
use resp_bench.Interactive.Layouts.{Entry, Layout, legacy, flat, detect_layout}
use resp_bench.Interactive.Loaders.{
  Stats, load_in, load_latency_data, load_latency_data_flat, load_cpu_data, load_cpu_data_flat,
  load_all_data, load_all_data_flat,
}
use resp_bench.Interactive.Traces.{keys}
use resp_bench.Interactive.Versions.{
  Version, version_label, given, extract_driver_versions, extract_driver_versions_flat,
}

-- A file that is not there, one that cannot be read, or its document.
pub data ManifestFile (F : Type 0) : Type 0 where
  missing unreadable : ManifestFile F
  manifest_of : Json F → ManifestFile F

-- The first label, if all of the variants have the same driver.
abbrev single : String → List String → Option String
single label (name ∷ []) = some label
single label _ = none

module _ {F : Type 0} where
  unfoldable pub load_manifest : ManifestFile F → Option (Json F)
  load_manifest missing = none
  load_manifest unreadable = none
  load_manifest (manifest_of document) = some document

  abbrev name_of : Option (Json F) → Result String
  name_of none = ok ""
  name_of (some (text name)) = ok name
  name_of (some _) = err ill_typed

  abbrev driver_names : List (String × Json F) → Result (List String)
  driver_names [] = ok []
  driver_names ((label, v) ∷ variants) = need_dict v >>= λ info.
      name_of (get info "driver_name") >>= λ name.
      driver_names variants >>= λ names. ok (name ∷ names)

  abbrev auto_reference : List (String × Json F) → Result (Option String)
  auto_reference [] = ok none
  auto_reference ((label, v) ∷ variants) =
      driver_names ((label, v) ∷ variants) >>= λ names. ok (single label (sorted_set names))

module _ (fl : Floats) where
  -- `if manifest:` passes over each document that is false, whatever its type.
  abbrev as_dict : Option (Json fl.Float) → Result (Option (Fields fl.Float))
  as_dict none = ok none
  as_dict (some document) =
      if truthy fl document
      then (need_dict document >>= λ manifest. ok (some manifest))
      else ok none

  -- The manifest is read in the flat layout alone.
  abbrev pub manifest_in : Layout → ManifestFile fl.Float → Result (Option (Fields fl.Float))
  manifest_in legacy manifest_file = ok none
  manifest_in flat manifest_file = as_dict (load_manifest manifest_file)

  abbrev reference_among : Option (Json fl.Float) → Result (Option String)
  reference_among none = ok none
  reference_among (some v) =
      if truthy fl v
      then (need_dict v >>= λ variants. auto_reference (entries variants))
      else ok none

  -- Looked for where no reference is given.
  abbrev pub reference_in : Option String → Option (Fields fl.Float) → Result (Option String)
  reference_in (some reference) manifest = ok none
  reference_in none none = ok none
  reference_in none (some manifest) = reference_among (get manifest "variants")

abbrev first_reference : String
first_reference = "spring-data-valkey-glide"

abbrev reference_or : Option String → Option String → String
reference_or (some reference) found = reference
reference_or none (some label) = label
reference_or none none = first_reference

-- The version's label with the display label in place of the driver's name.
abbrev enriched : String → Option Version → Version
enriched display none = record {
  primary_version = none;
  secondary_id = none;
  secondary_version = none;
  label = display;
}
enriched display (some v) = record v {
  label = elim (given v.primary_version) [
    | none ↦ display
    | some primary ↦
        version_label display primary (given v.secondary_id) (given v.secondary_version)
  ];
}

unfoldable with_display_labels : Dict String → Dict Version → Dict Version
unfolding Dict.get Dict.put
with_display_labels [] versions = versions
with_display_labels ((label, display) ∷ rest) versions =
    with_display_labels rest (Dict.put versions label (enriched display (Dict.get versions label)))

module _ (fl : Floats) (num : Numeric fl) (shown : Json fl.Float → String)
    (from_iso : String → Option fl.Float) where
  -- What `generate_html` is called with, and the state of the module at that time.
  pub record Report : Type 0 where
    pub curves : Curves fl
    pub stats : Stats
    pub latency_data : LatencyCurves fl num
    pub latency_commands : List String
    pub cpu_data : Option (Curves fl)
    pub driver_versions : Dict Version
    pub reference : String
    pub palette : Palette

  abbrev pub latencies_in :
      Layout → Dict (Entry fl.Float) → OutlierMap → Result (LatencyCurves fl num × List String)
  latencies_in legacy results_dir outlier_map = load_latency_data fl num results_dir outlier_map
  latencies_in flat results_dir outlier_map = load_latency_data_flat fl num results_dir outlier_map

  abbrev pub cpu_in : Layout → Dict (Entry fl.Float) → OutlierMap → Result (Curves fl × Bool)
  cpu_in legacy results_dir outlier_map = load_cpu_data fl num from_iso results_dir outlier_map
  cpu_in flat results_dir outlier_map = load_cpu_data_flat fl num from_iso results_dir outlier_map

  abbrev pub versions_in : Layout → Dict (Entry fl.Float) → Result (Dict Version)
  versions_in legacy results_dir = extract_driver_versions results_dir
  versions_in flat results_dir = extract_driver_versions_flat results_dir

  -- The palette and the labels of the series in the flat layout.
  abbrev pub labels_in :
      Layout → Curves fl → Option (Fields fl.Float) → Result (Palette × Dict String)
  labels_in legacy curves manifest = ok (first_palette, [])
  labels_in flat curves manifest =
      assign_variant_colors fl num shown first_palette (keys curves) manifest >>= λ (p, vs).
      ok (override p vs, vs.display_labels)

  abbrev pub need_curves : Curves fl → Result (Unit {0})
  need_curves [] = err system_exit
  need_curves (c ∷ cs) = ok tt

  unfoldable pub report_of :
      Layout → Option String → ManifestFile fl.Float → Dict (Entry fl.Float) → Result Report
  unfolding load_manifest load_all_data load_all_data_flat assign_variant_colors override
      extract_driver_versions extract_driver_versions_flat with_display_labels load_latency_data
      load_latency_data_flat load_cpu_data load_cpu_data_flat
  report_of layout reference manifest_file results_dir =
      manifest_in fl layout manifest_file >>= λ manifest.
      reference_in fl reference manifest >>= λ found.
      load_in fl num layout results_dir >>= λ (curves, stats, outlier_map).
      need_curves curves >>= λ passed. labels_in layout curves manifest >>= λ (palette, labels).
      versions_in layout results_dir >>= λ versions.
      latencies_in layout results_dir outlier_map >>= λ (latencies, commands).
      cpu_in layout results_dir outlier_map >>= λ (cpu, has_cpu). ok (record {
        curves = curves;
        stats = stats;
        latency_data = latencies;
        latency_commands = commands;
        cpu_data = if has_cpu then some cpu else none;
        driver_versions = with_display_labels labels versions;
        reference = reference_or reference found;
        palette = palette;
      })

  -- The reference is the option, which may be empty; the directory is none where it is no directory.
  unfoldable pub main :
      Option String → ManifestFile fl.Float → Option (Dict (Entry fl.Float)) → Result Report
  unfolding detect_layout report_of
  main reference manifest_file none = err system_exit
  main reference manifest_file (some results_dir) =
      report_of (detect_layout results_dir) (given reference) manifest_file results_dir
