-- ===== src/Metrics/Writer.antt =====
-- The NDJSON row of a phase (metrics/ndjson_writer.py), as a JSON document. `iso8601` is the text of
-- a time in UTC, and `millis` the milliseconds between two times: both are the datetime module's.
pub mod Readback
use resp_bench.Prelude.{
  ℕ, ◌*◌, String, Bool, true, false, Option, none, some, List, [], ◌∷◌, str_eq, if◌then◌else◌, ◌||◌,
}
use resp_bench.Prelude.Dict
use resp_bench.Prelude.Dict.{Dict}
use resp_bench.Prelude.Int.{ℤ, pos, ◌*ℤ◌}
use resp_bench.Floats.{Floats}
use resp_bench.Json.{Json, null, int, text, object}
use resp_bench.Config.Driver.{truthy}
use resp_bench.Metrics.{Histograms, CommandMetrics, MetricsCollector}

pub record Times : Type 0 where
  pub iso8601 : ℕ → String
  pub millis : ℕ → ℕ → ℕ

-- `MetricsCollector.duration_millis`
unfoldable pub duration_millis : (hs : Histograms) → Times → MetricsCollector hs → ℕ
duration_millis hs ts c = elim c.start_time [
  | none ↦ 0
  | some s ↦ elim c.end_time [ none ↦ 0 | some e ↦ ts.millis s e ]
]

module _ (fl : Floats) (hs : Histograms) (ts : Times) where
  abbrev pub Doc : Type 0
  Doc = Json fl.Float

  abbrev pub number : ℕ → Doc
  number n = int (pos n)

  pub record NdjsonWriter : Type 0 where
    pub output_path : String
    pub commit_id : Option String
    pub driver_id : Option String
    pub primary_driver_version : Option String
    pub secondary_driver_id : Option Doc
    pub secondary_driver_version : Option String
    pub driver_details : Dict Doc

  unfoldable pub new_writer : String → NdjsonWriter
  new_writer path = record {
    output_path = path;
    commit_id = none;
    driver_id = none;
    primary_driver_version = none;
    secondary_driver_id = none;
    secondary_driver_version = none;
    driver_details = [];
  }

  -- `set_metadata`; `driver_details or {}` of a dict or None
  unfoldable pub set_metadata :
      NdjsonWriter
      → Option String
      → Option String
      → Option String
      → Option Doc
      → Option String
      → Option (Dict Doc)
      → NdjsonWriter
  set_metadata w commit driver primary secondary secondary_version details = record w {
    commit_id = commit;
    driver_id = driver;
    primary_driver_version = primary;
    secondary_driver_id = secondary;
    secondary_driver_version = secondary_version;
    driver_details = elim details [ none ↦ [] | some m ↦ m ];
  }

  -- `if text: d[key] = text`
  abbrev is_text : Option String → Bool
  is_text none = false
  is_text (some s) = if str_eq s "" then false else true

  abbrev put_text : String → Option String → Dict Doc → Dict Doc
  put_text k none d = d
  put_text k (some s) d = if str_eq s "" then d else Dict.put d k (text s)

  abbrev put_doc : String → Option Doc → Dict Doc → Dict Doc
  put_doc k none d = d
  put_doc k (some v) d = if truthy fl v then Dict.put d k v else d

  -- `setdefault` for each item in turn
  unfoldable pub set_defaults : Dict Doc → Dict Doc → Dict Doc
  unfolding Dict.get Dict.put
  set_defaults d [] = d
  set_defaults d ((k, v) ∷ rest) =
      set_defaults (elim (Dict.get d k) [ none ↦ Dict.put d k v | some u ↦ d ]) rest

  -- What the driver's details may add to.
  abbrev pub base_metadata : NdjsonWriter → ℕ → Dict Doc
  base_metadata w now = put_text "secondary_driver_version" w.secondary_driver_version (
      put_doc "secondary_driver_id" w.secondary_driver_id (
        put_text "primary_driver_version" w.primary_driver_version (
          put_text "driver_id" w.driver_id (
            Dict.put (put_text "commit_id" w.commit_id Dict.empty) "timestamp"
              (text (ts.iso8601 now))))))

  unfoldable pub metadata : NdjsonWriter → ℕ → Dict Doc
  unfolding set_defaults
  metadata w now = set_defaults (base_metadata w now) w.driver_details

  abbrev timestamp : Option ℕ → Doc
  timestamp none = null
  timestamp (some t) = text (ts.iso8601 t)

  unfoldable pub phase_block : Option String → String → ℤ → MetricsCollector hs → ℤ → ℤ → Doc
  unfolding duration_millis
  phase_block id status connections c depth sockets = object (
      ("id", elim id [ none ↦ null | some s ↦ text s ])
      ∷ ("status", text status)
      ∷ ("start_timestamp", timestamp c.start_time)
      ∷ ("finish_timestamp", timestamp c.end_time)
      ∷ ("duration_ms", number (duration_millis hs ts c))
      ∷ ("connections", int connections)
      ∷ ("pipeline_depth", int depth)
      ∷ ("sockets_per_client", int sockets)
      ∷ ("total_sockets", int (connections *ℤ sockets))
      ∷ [])

  abbrev latency_block : CommandMetrics hs → Doc
  latency_block m =
      let h = m.histogram in
      object (
        ("unit", text "us")
        ∷ ("count", number (hs.get_total_count h))
        ∷ (
          "summary",
          object (
              ("min", number (hs.get_min_value h))
              ∷ ("p50", number (hs.get_value_at_permille h 500))
              ∷ ("p95", number (hs.get_value_at_permille h 950))
              ∷ ("p99", number (hs.get_value_at_permille h 990))
              ∷ ("p999", number (hs.get_value_at_permille h 999))
              ∷ ("max", number (hs.get_max_value h))
              ∷ []),
        )
        ∷ (
          "hdr",
          object (
              ("format", text "hdr")
              ∷ ("sigfig", number 3)
              ∷ ("payload_b64", text (hs.encode_base64 h))
              ∷ []),
        )
        ∷ [])

  unfoldable pub command_block : CommandMetrics hs → Doc
  command_block m = object (
      ("requests", number m.requests)
      ∷ ("errors", number m.errors)
      ∷ ("latency", latency_block m)
      ∷ [])

  -- `metrics[cmd_name] = …` for each entry in turn
  abbrev pub assign : Dict Doc → Dict (CommandMetrics hs) → Dict Doc
  assign d [] = d
  assign d ((k, m) ∷ rest) = assign (Dict.put d k (command_block m)) rest

  unfoldable pub build_command_metrics : MetricsCollector hs → Dict Doc
  unfolding command_block Dict.put
  build_command_metrics c = assign Dict.empty c.command_metrics

  unfoldable pub totals_block : MetricsCollector hs → Doc
  totals_block c =
      object (("requests", number c.total_requests) ∷ ("errors", number c.total_errors) ∷ [])

  abbrev pub document : Bool → Dict Doc → List (String × Doc) → Doc
  document true meta blocks = object (("metadata", object meta) ∷ blocks)
  document false meta blocks = object blocks

  unfoldable pub build_phase_json :
      NdjsonWriter → ℕ → Option String → String → ℤ → MetricsCollector hs → ℤ → ℤ → Doc
  unfolding metadata phase_block totals_block build_command_metrics
  build_phase_json w now id status connections c depth sockets =
      document (is_text w.commit_id || is_text w.driver_id) (metadata w now) (
        ("phase", phase_block id status connections c depth sockets)
        ∷ ("totals", totals_block c)
        ∷ ("metrics", object (build_command_metrics c))
        ∷ [])
