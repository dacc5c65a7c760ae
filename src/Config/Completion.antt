-- ===== src/Config/Completion.antt =====
-- Phase completion criteria (config/completion_config.py). `type` is None where the document has
-- none; `seconds` and `requests` likewise.
use resp_bench.Prelude.{
  [], ◌∷◌, String, Bool, true, false, Option, none, some, str_eq, if◌then◌else◌,
}
use resp_bench.Prelude.Int.{ℤ, pos, leb_ℤ}
use resp_bench.Prelude.Texts.{lower, strip, concat}
use resp_bench.Prelude.Results.{value_error, Result, err, raise_if}

abbrev pub duration : String
duration = "duration"

abbrev pub requests_type : String
requests_type = "requests"

pub record CompletionConfig : Type 0 where
  pub type : Option String
  pub seconds : Option ℤ
  pub requests : Option ℤ

abbrev normalised : Option String → Option String
normalised none = none
normalised (some t) = some (lower (strip t))

-- `CompletionConfig(...)` with its `__post_init__`
unfoldable pub make : Option String → Option ℤ → Option ℤ → CompletionConfig
unfolding lower strip
make type seconds requests = record {
  type = normalised type;
  seconds = seconds;
  requests = requests;
}

abbrev pub has_type : CompletionConfig → String → Bool
has_type c t = elim c.type [ none ↦ false | some s ↦ str_eq s t ]

-- `not x or x <= 0`
abbrev pub lacks_positive : Option ℤ → Bool
lacks_positive none = true
lacks_positive (some n) = leb_ℤ n (pos 0)

abbrev pub is_missing : Option String → Bool
is_missing none = true
is_missing (some s) = str_eq s ""

unfoldable pub validate : CompletionConfig → Result (Unit {0})
validate c =
    if is_missing c.type
    then err (value_error "completion.type is required (\"duration\" or \"requests\")")
    else if has_type c duration
    then raise_if (lacks_positive c.seconds)
        (value_error "completion.seconds must be a positive integer for a duration phase")
    else if has_type c requests_type
    then raise_if (lacks_positive c.requests)
        (value_error "completion.requests must be a positive integer for a requests phase")
    else err (
        value_error (
          concat (
            "Unknown completion type: "
            ∷ elim c.type [ none ↦ "" | some t ↦ t ]
            ∷ " (expected \"duration\" or \"requests\")"
            ∷ [])))

unfoldable pub is_duration_based : CompletionConfig → Bool
is_duration_based c = has_type c duration

unfoldable pub is_request_based : CompletionConfig → Bool
is_request_based c = has_type c requests_type

abbrev or_zero : Option ℤ → ℤ
or_zero none = pos 0
or_zero (some n) = n

unfoldable pub duration_seconds : CompletionConfig → ℤ
duration_seconds c = or_zero c.seconds

unfoldable pub total_requests : CompletionConfig → ℤ
total_requests c = or_zero c.requests
