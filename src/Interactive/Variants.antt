-- ===== src/Interactive/Variants.antt =====
-- The series of a matrix: the driver, the colour and the label of each
-- (scripts/generate_interactive_graphs.py). The manifest is that of the matrix runner, as it is read
-- from `_manifest.json`; `shown` is the text that an f-string has for a value.
pub mod Manifested
use Prim.Native.String
use Prim.Native.Nat.{max, min}
use resp_bench.Prelude.{
  ℕ, zero, suc, ◌+◌, ◌-◌, ◌*◌, ◌%◌, Bool, true, false, ◌||◌, ◌&&◌, Option, none, some, List, [],
  ◌∷◌, ◌++◌, String, str_eq, length, get_elem?, ltb, if◌then◌else◌, map,
}
use resp_bench.Prelude.Int.{pos}
use resp_bench.Prelude.Dict.{Dict}
use resp_bench.Prelude.Dict
use resp_bench.Prelude.Texts.{concat, join}
use resp_bench.Prelude.Paths.{starts_with, tail, replace}
use resp_bench.Prelude.Results.{ill_typed, Result, ok, err, ◌>>=◌}
use resp_bench.Floats.{Floats}
use resp_bench.Json.{Json, Fields, text, obj, get, get_text, get_dict_or_empty, entries, need_dict}
use resp_bench.Interactive.Numbers.{Numeric, sorted}
use resp_bench.Interactive.Keyed.{append_to}
use resp_bench.Interactive.Colors.{
  Palette, get_driver_color, get_driver_family, hsl_to_hex, driver_base_colors, line_dashes,
}

-- `sorted(d.keys(), key=len, reverse=True)`, which keeps the order of keys of one length
abbrev longer : String → String → Bool
longer a b = ltb (Prim.Native.String.count b) (Prim.Native.String.count a)

abbrev keys : Dict String → List String
keys [] = []
keys ((k, v) ∷ d) = k ∷ keys d

abbrev fits_label : String → String → Bool
fits_label label name = str_eq label name || starts_with label (concat (name ∷ "@" ∷ []))

abbrev first_fit : String → List String → String
first_fit label [] = label
first_fit label (name ∷ names) =
    let rest = first_fit label names in if fits_label label name then name else rest

unfoldable pub known_driver : Palette → String → String
unfolding sorted
known_driver p label = first_fit label (sorted longer (keys p.colors))

abbrev named_driver : Palette → String → Option String → String
named_driver p label none = known_driver p label
named_driver p label (some name) = if str_eq name "" then known_driver p label else name

-- `f"{k}={v}"`
abbrev shown_pair : String → String → String
shown_pair k v = concat (k ∷ "=" ∷ v ∷ [])

module _ {F : Type 0} where
  -- `manifest["variants"].get(label, {})`; none without a manifest, or without that key in it
  unfoldable pub variant_info : Option (Fields F) → String → Result (Option (Fields F))
  unfolding get get_dict_or_empty
  variant_info none label = ok none
  variant_info (some manifest) label = elim (get manifest "variants") [
    | none ↦ ok none
    | some v ↦
        need_dict v >>= λ variants. get_dict_or_empty variants label >>= λ info. ok (some info)
  ]

  abbrev pub driver_in : Palette → String → Option (Fields F) → Result String
  driver_in p label none = ok (known_driver p label)
  driver_in p label (some info) =
      get_text info "driver_name" >>= λ name. ok (named_driver p label name)

  unfoldable pub infer_driver_name : Palette → String → Option (Fields F) → Result String
  unfolding variant_info get_text known_driver
  infer_driver_name p label manifest = variant_info manifest label >>= driver_in p label

  abbrev need_name : String → Option (Json F) → Result String
  need_name label none = ok label
  need_name label (some (text name)) = ok name
  need_name label (some _) = err ill_typed

  module _ (shown : Json F → String) where
    abbrev short_name : String → String
    short_name k =
        replace (replace k "GLIDE_TOKIO_WORKER_THREADS" "tokio") "GLIDE_CALLBACK_WORKER_THREADS"
          "callback"

    abbrev env_parts : Dict (Json F) → List String
    env_parts [] = []
    env_parts ((k, v) ∷ rest) = shown_pair (short_name k) (shown v) ∷ env_parts rest

    abbrev one_param : String → Json F → List String
    one_param k (obj o) =
        if str_eq k "env"
        then env_parts (Dict.sorted_items (entries o))
        else shown_pair k (shown (obj o)) ∷ []
    one_param k v = shown_pair k (shown v) ∷ []

    abbrev param_parts : Dict (Json F) → List String
    param_parts [] = []
    param_parts ((k, v) ∷ rest) = one_param k v ++ param_parts rest

    abbrev shown_ref : Json F → String
    shown_ref (text t) = if starts_with t "$" then tail t else t
    shown_ref v = shown v

    abbrev binding_parts : Dict (Json F) → List String
    binding_parts [] = []
    binding_parts ((k, v) ∷ rest) = shown_pair k (shown_ref v) ∷ binding_parts rest

    abbrev with_parts : String → List String → String
    with_parts name [] = name
    with_parts name (p ∷ ps) = concat (name ∷ " | " ∷ join ", " (p ∷ ps) ∷ [])

    abbrev described : String → String → Dict (Json F) → Dict (Json F) → String
    described label name [] [] = label
    described label name params bindings =
        with_parts name
          (param_parts (Dict.sorted_items params) ++ binding_parts (Dict.sorted_items bindings))

    abbrev label_in : String → Option (Fields F) → Result String
    label_in label none = ok label
    label_in label (some info) = elim (entries info) [
      | [] ↦ ok label
      | ◌∷◌ e es ↦ get_dict_or_empty info "params" >>= λ params.
          get_dict_or_empty info "bindings" >>= λ bindings.
          need_name label (get info "driver_name") >>= λ name.
          ok (described label name (entries params) (entries bindings))
    ]

    unfoldable pub build_display_label : String → Option (Fields F) → Result String
    unfolding variant_info get get_dict_or_empty join replace Dict.sorted_items
    build_display_label label manifest = variant_info manifest label >>= label_in label
