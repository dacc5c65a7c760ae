-- ===== src/Graphs.antt =====
-- The rows that the comparison graphs are drawn from (scripts/generate_graphs.py). A file is none where
-- it does not exist; each of its lines is given as what it is.
pub mod Aggregate
pub mod Charts
pub mod Selected
pub mod Tests
use resp_bench.Prelude.{
  Bool, true, false, Option, none, some, List, [], ◌∷◌, ◌++◌, String, str_eq, if◌then◌else◌,
}
use resp_bench.Prelude.Dict.{Dict}
use resp_bench.Prelude.Dict
use resp_bench.Prelude.Results.{ill_typed, Result, ok, err, ◌>>=◌}
use resp_bench.Json.{Json, Fields, null, text, arr, obj, get, put, need_dict, get_dict_or_empty}

abbrev driver_language_map : Dict String
driver_language_map =
    ("jedis", "java")
    ∷ ("lettuce", "java")
    ∷ ("redisson", "java")
    ∷ ("valkey-glide", "java")
    ∷ ("spring-data-valkey", "java")
    ∷ ("spring-data-redis", "java")
    ∷ ("redis-rb", "ruby")
    ∷ ("valkey-glide-ruby", "ruby")
    ∷ ("stackexchange-redis", "csharp")
    ∷ ("valkey-glide-csharp", "csharp")
    ∷ ("valkey-glide-php", "php")
    ∷ ("phpredis", "php")
    ∷ ("valkey-glide-node", "node")
    ∷ ("ioredis", "node")
    ∷ ("iovalkey", "node")
    ∷ ("redis-py", "python")
    ∷ ("valkey-glide-python", "python")
    ∷ ("aioredis", "python")
    ∷ ("valkey-glide-rust", "rust")
    ∷ ("redis-rs", "rust")
    ∷ ("valkey-glide-go", "go")
    ∷ ("go-redis", "go")
    ∷ []

unfoldable pub get_driver_language : String → Option String
unfolding Dict.get
get_driver_language driver_id = Dict.get driver_language_map driver_id

abbrev speaks : Option String → String → Bool
speaks none language = false
speaks (some l) language = str_eq l language

-- A line: white space, a JSON document, or neither.
pub data Line (F : Type 0) : Type 0 where
  blank broken : Line F
  document : Json F → Line F

module _ {F : Type 0} where
  -- `value == s`
  abbrev pub is_text : Option (Json F) → String → Bool
  is_text (some (text t)) s = str_eq t s
  is_text _ s = false

  -- `phase.get("status", "COMPLETED") == "COMPLETED"`
  abbrev pub is_completed : Option (Json F) → Bool
  is_completed none = true
  is_completed (some v) = is_text (some v) "COMPLETED"

  -- A list or dict has no hash; a value of another type is no key of the map.
  abbrev language_of : Option (Json F) → Result (Option String)
  language_of none = ok (get_driver_language "")
  language_of (some (text driver_id)) = ok (get_driver_language driver_id)
  language_of (some (arr vs)) = err ill_typed
  language_of (some (obj o)) = err ill_typed
  language_of (some v) = ok none

  -- `language_filter`, which holds of any row where it is None or empty
  abbrev pub in_language : Option String → Fields F → Result Bool
  in_language none row = ok true
  in_language (some language) row =
      if str_eq language ""
      then ok true
      else (get_dict_or_empty row "metadata" >>= λ metadata.
          language_of (get metadata "driver_id") >>= λ found. ok (speaks found language))

  -- The warning about a row that did not complete names its driver, and so reads the row's metadata.
  abbrev pub skip_warning : Fields F → Result Bool
  skip_warning row = get_dict_or_empty row "metadata" >>= λ metadata. ok false

  abbrev pub right_phase : String → Option String → Fields F → Fields F → Result Bool
  right_phase phase_filter language row phase =
      if is_text (get phase "id") phase_filter
      then if is_completed (get phase "status") then in_language language row else skip_warning row
      else ok false

  unfoldable pub is_selected : String → Option String → Fields F → Result Bool
  unfolding get get_dict_or_empty get_driver_language
  is_selected phase_filter language row =
      get_dict_or_empty row "phase" >>= right_phase phase_filter language row

  abbrev pub keep_row : String → Fields F → Bool → List (Fields F) → List (Fields F)
  keep_row path row true later = put row "_source_file" (text path) ∷ later
  keep_row path row false later = later

  unfoldable pub load_lines :
      String → Option String → String → List (Line F) → Result (List (Fields F))
  unfolding is_selected put
  load_lines phase_filter language path [] = ok []
  load_lines phase_filter language path (blank ∷ lines) =
      load_lines phase_filter language path lines
  load_lines phase_filter language path (broken ∷ lines) =
      load_lines phase_filter language path lines
  load_lines phase_filter language path (document value ∷ lines) = need_dict value >>= λ row.
      is_selected phase_filter language row >>= λ selected.
      load_lines phase_filter language path lines >>= λ later. ok (keep_row path row selected later)

  unfoldable pub load_results :
      List (String × Option (List (Line F))) → String → Option String → Result (List (Fields F))
  unfolding load_lines
  load_results [] phase_filter language = ok []
  load_results ((path, none) ∷ files) phase_filter language =
      load_results files phase_filter language
  load_results ((path, some lines) ∷ files) phase_filter language =
      load_lines phase_filter language path lines >>= λ rows.
      load_results files phase_filter language >>= λ later. ok (rows ++ later)

-- A component that is None matches any value.
pub record AggregationKey : Type 0 where
  pub commit_id : Option String
  pub primary_driver_version : Option String
  pub secondary_driver_version : Option String

module _ {F : Type 0} where
  abbrev component_matches : Option String → Option (Json F) → Bool
  component_matches none value = true
  component_matches (some k) value = is_text value k

  unfoldable pub matches_aggregation_key : Fields F → AggregationKey → Result Bool
  unfolding get get_dict_or_empty
  matches_aggregation_key result key = get_dict_or_empty result "metadata" >>= λ metadata. ok (
      if component_matches key.commit_id (get metadata "commit_id")
      then if component_matches key.primary_driver_version (get metadata "primary_driver_version")
        then component_matches key.secondary_driver_version
            (get metadata "secondary_driver_version")
        else false
      else false)
