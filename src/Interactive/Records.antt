-- ===== src/Interactive/Records.antt =====
-- What is read of one results file (scripts/generate_interactive_graphs.py): the rows of the STEADY
-- phase, their throughputs, latencies and times, and the samples of a system file. `\d` is one of the
-- ten digits of ASCII.
pub mod Steady
use Prim.Native.Char.{code}
use Prim.Native.String
use resp_bench.Prelude.{
  ℕ, ◌+◌, ◌-◌, ◌*◌, Bool, true, false, ◌&&◌, ◌||◌, leb, Option, none, some, List, [], ◌∷◌, String,
  map, str_eq, if◌then◌else◌,
}
use resp_bench.Prelude.Int.{pos}
use resp_bench.Prelude.Paths.{replace}
use resp_bench.Prelude.Results.{failure, ill_typed, Result, ok, err, ◌>>=◌}
use resp_bench.Floats.{Floats}
use resp_bench.Json.{
  Json, Fields, null, int, real, text, get, entries, need_dict, get_dict_or_empty,
}
use resp_bench.Graphs.{Line, blank, broken, document, is_text}
use resp_bench.Interactive.Numbers.{Numeric}
use resp_bench.Interactive.Keyed.{append_to}

-- What the pattern has after the digits; `$` also matches before a newline that ends the text.
abbrev ends_a_count : String → Bool
ends_a_count s =
    str_eq s "-client" || str_eq s "-clients" || str_eq s "-client\n" || str_eq s "-clients\n"

abbrev is_digit : ℕ → Bool
is_digit c = leb 48 c && leb c 57

abbrev count_from : Bool → ℕ → String → Option ℕ
count_from seen n String.[] = none
count_from seen n (String.◌∷◌ c s) =
    let more = count_from true (n * 10 + (code c - 48)) s in
    if is_digit (code c)
    then more
    else if seen && ends_a_count (String.◌∷◌ c s)
    then some n
    else none

unfoldable pub parse_client_count : String → Option ℕ
parse_client_count dirname = count_from false 0 dirname

module _ {F : Type 0} where
  abbrev pub add_row : Bool → Fields F → List (Fields F) → List (Fields F)
  add_row true row later = row ∷ later
  add_row false row later = later

  -- `data.get("phase", {}).get("id") == "STEADY"`
  abbrev pub is_steady : Fields F → Result Bool
  is_steady row = get_dict_or_empty row "phase" >>= λ phase. ok (is_text (get phase "id") "STEADY")

  unfoldable pub load_steady_records : List (Line F) → Result (List (Fields F))
  unfolding get get_dict_or_empty
  load_steady_records [] = ok []
  load_steady_records (blank ∷ lines) = load_steady_records lines
  load_steady_records (broken ∷ lines) = load_steady_records lines
  load_steady_records (document value ∷ lines) = need_dict value >>= λ row.
      is_steady row >>= λ steady.
      load_steady_records lines >>= λ later. ok (add_row steady row later)

  -- `d[k]`
  abbrev pub item : Fields F → String → Result (Json F)
  item o k = elim (get o k) [ none ↦ err (failure k) | some v ↦ ok v ]

module _ (fl : Floats) where
  -- A number of a document as a float.
  abbrev pub need_number : Json fl.Float → Result fl.Float
  need_number (int n) = ok (fl.of_int n)
  need_number (real x) = ok x
  need_number _ = err ill_typed

  abbrev number_or_zero : Option (Json fl.Float) → Result fl.Float
  number_or_zero none = ok (fl.of_int (pos 0))
  number_or_zero (some v) = need_number v

  -- `total_requests / (duration_ms / 1000.0)`
  abbrev pub rps_of : fl.Float → fl.Float → fl.Float
  rps_of total_requests duration_ms =
      fl.div total_requests (fl.div duration_ms (fl.of_int (pos 1000)))

  abbrev pub duration_of : Fields fl.Float → Result fl.Float
  duration_of row =
      item row "phase" >>= need_dict >>= λ phase. item phase "duration_ms" >>= need_number

  abbrev pub requests_of : Fields fl.Float → Result fl.Float
  requests_of row =
      get_dict_or_empty row "totals" >>= λ totals. number_or_zero (get totals "requests")

  -- `duration_ms <= 0`
  abbrev pub no_time : fl.Float → Bool
  no_time duration_ms = fl.leb duration_ms (fl.of_int (pos 0))

  unfoldable pub extract_total_rps : List (Fields fl.Float) → Result (List fl.Float)
  unfolding get get_dict_or_empty
  extract_total_rps [] = ok []
  extract_total_rps (row ∷ rows) = duration_of row >>= λ duration_ms. elim (no_time duration_ms) [
    | true ↦ extract_total_rps rows
    | false ↦ requests_of row >>= λ total_requests.
        extract_total_rps rows >>= λ later. ok (rps_of total_requests duration_ms ∷ later)
  ]

  abbrev pub percentiles : List String
  percentiles = "p50" ∷ "p95" ∷ "p99" ∷ "p999" ∷ []

  abbrev pub Latencies : Type 0
  Latencies = List ((String × String) × List fl.Float)

  abbrev same_pair : String × String → String × String → Bool
  same_pair (a, b) (c, d) = str_eq a c && str_eq b d

  -- A value that is there is not None.
  abbrev present : Option (Json fl.Float) → Option (Json fl.Float)
  present (some null) = none
  present v = v

  abbrev add_value : String × String → Option (Json fl.Float) → Latencies → Result Latencies
  add_value key none result = ok result
  add_value key (some v) result = need_number v >>= λ x. ok (append_to same_pair result key x)

  abbrev add_percentiles : String → Fields fl.Float → List String → Latencies → Result Latencies
  add_percentiles command summary [] result = ok result
  add_percentiles command summary (pct ∷ pcts) result =
      add_value (command, pct) (present (get summary pct)) result
      >>= add_percentiles command summary pcts

  abbrev add_commands : List (String × Json fl.Float) → Latencies → Result Latencies
  add_commands [] result = ok result
  add_commands ((command, v) ∷ rest) result = need_dict v >>= λ cmd_data.
      get_dict_or_empty cmd_data "latency" >>= λ latency.
      get_dict_or_empty latency "summary" >>= λ summary.
      add_percentiles command summary percentiles result >>= add_commands rest

  abbrev add_latencies : List (Fields fl.Float) → Latencies → Result Latencies
  add_latencies [] result = ok result
  add_latencies (row ∷ rows) result = get_dict_or_empty row "metrics" >>= λ metrics.
      add_commands (entries metrics) result >>= add_latencies rows

  unfoldable pub extract_latency_percentiles : List (Fields fl.Float) → Result Latencies
  unfolding get get_dict_or_empty append_to
  extract_latency_percentiles rows = add_latencies rows []

  -- A file that is not there has no samples.
  abbrev Sample : Type 0
  Sample = fl.Float × fl.Float

  abbrev add_sample :
      Option (Json fl.Float) → Option (Json fl.Float) → List Sample → Result (List Sample)
  add_sample (some epoch) (some cpu_pct) later =
      need_number epoch >>= λ e. need_number cpu_pct >>= λ p. ok ((e, p) ∷ later)
  add_sample _ _ later = ok later

  unfoldable pub load_cpu_samples : List (Line fl.Float) → Result (List (fl.Float × fl.Float))
  unfolding get
  load_cpu_samples [] = ok []
  load_cpu_samples (blank ∷ lines) = load_cpu_samples lines
  load_cpu_samples (broken ∷ lines) = load_cpu_samples lines
  load_cpu_samples (document value ∷ lines) = need_dict value >>= λ row.
      load_cpu_samples lines >>= λ later.
      add_sample (present (get row "timestamp_epoch")) (present (get row "cpu_percent")) later

  -- The time of `datetime.fromisoformat`, none where it raises.
  module _ (from_iso : String → Option fl.Float) where
    unfoldable pub parse_iso_to_epoch : String → Option fl.Float
    unfolding replace
    parse_iso_to_epoch iso_str = from_iso (replace iso_str "Z" "+00:00")

    -- A value that is no text has no `replace`.
    abbrev pub time_of : Option (Json fl.Float) → Option fl.Float
    time_of (some (text t)) = if str_eq t "" then none else parse_iso_to_epoch t
    time_of _ = none

    abbrev Window : Type 0
    Window = fl.Float × fl.Float

    abbrev add_window : Option fl.Float → Option fl.Float → List Window → List Window
    add_window (some start) (some finish) later = (start, finish) ∷ later
    add_window _ _ later = later

    unfoldable pub extract_steady_time_windows :
        List (Fields fl.Float) → Result (List (fl.Float × fl.Float))
    unfolding get get_dict_or_empty parse_iso_to_epoch
    extract_steady_time_windows [] = ok []
    extract_steady_time_windows (row ∷ rows) = get_dict_or_empty row "phase" >>= λ phase.
        extract_steady_time_windows rows >>= λ later. ok (
          add_window (time_of (get phase "start_timestamp"))
            (time_of (get phase "finish_timestamp")) later)

  module _ (num : Numeric fl) where
    abbrev inside : fl.Float → fl.Float → List Sample → List fl.Float
    inside start finish [] = []
    inside start finish ((epoch, cpu) ∷ samples) =
        let rest = inside start finish samples in
        if fl.leb start epoch && fl.leb epoch finish then cpu ∷ rest else rest

    -- `mean(xs)` of a list that is not empty
    abbrev pub mean_of : List fl.Float → Option fl.Float
    mean_of [] = none
    mean_of (x ∷ xs) = some (num.mean (x ∷ xs))

    unfoldable pub compute_avg_cpu_for_window :
        List (fl.Float × fl.Float) → fl.Float → fl.Float → Option fl.Float
    compute_avg_cpu_for_window samples start finish = mean_of (inside start finish samples)
