-- ===== src/Prelude/Texts.antt =====
-- Text: case mapping, decimal digits, joining. Case mapping is that of ASCII.
use Prim.Native.Char.{Char, code}
use Prim.Native.String.{String, ◌++◌}
use Prim.Native.String
use Prim.Native.Nat.{Ordering}
use mathlib.Core.Bool.{Bool, false, ◌&&◌, ◌||◌}
use text.Mathlib.Text.{◌==◌ as str_eq}
use mathlib.Core.List.{List, [], ◌∷◌}
use resp_bench.Prelude.Tests.{◌==◌, leb, if◌then◌else◌}

-- The character of `to` that stands where `c` stands in `from`; `c` where it does not.
abbrev pub translate : String → String → Char → Char
translate (String.◌∷◌ f from) (String.◌∷◌ t to) c =
    if code f == code c then t else translate from to c
translate _ _ c = c

abbrev pub map_chars : (Char → Char) → String → String
map_chars f String.[] = String.[]
map_chars f (String.◌∷◌ c s) = String.◌∷◌ (f c) (map_chars f s)

abbrev pub capitals : String
capitals = "ABCDEFGHIJKLMNOPQRSTUVWXYZ"

abbrev pub small_letters : String
small_letters = "abcdefghijklmnopqrstuvwxyz"

unfoldable pub lower : String → String
lower s = map_chars (translate capitals small_letters) s

unfoldable pub upper : String → String
upper s = map_chars (translate small_letters capitals) s

-- `sep.join(parts)`
unfoldable pub join : String → List String → String
join sep [] = ""
join sep (p ∷ []) = p
join sep (p ∷ (q ∷ ps)) = p ++ (sep ++ join sep (q ∷ ps))

-- `str.strip()` of the white space of ASCII
abbrev pub is_space : Char → Bool
is_space c = code c == 32 || (leb 9 (code c) && leb (code c) 13)

abbrev pub strip_left : String → String
strip_left String.[] = String.[]
strip_left (String.◌∷◌ c s) = if is_space c then strip_left s else String.◌∷◌ c s

abbrev pub strip_right : String → String
strip_right String.[] = String.[]
strip_right (String.◌∷◌ c s) =
    let rest = strip_right s in
    if str_eq rest "" && is_space c then String.[] else String.◌∷◌ c rest

unfoldable pub strip : String → String
strip s = strip_right (strip_left s)

-- `s in names`
abbrev pub member : String → List String → Bool
member s [] = false
member s (n ∷ ns) = str_eq n s || member s ns

-- `sorted(set(names))`
abbrev pub insert_sorted : String → List String → List String
insert_sorted s [] = s ∷ []
insert_sorted s (n ∷ ns) = elim (Prim.Native.String.compare s n) [
  | Ordering.lt ↦ s ∷ n ∷ ns
  | Ordering.eq ↦ n ∷ ns
  | Ordering.gt ↦ n ∷ insert_sorted s ns
]

unfoldable pub sorted_set : List String → List String
sorted_set [] = []
sorted_set (n ∷ ns) = insert_sorted n (sorted_set ns)

-- an f-string: its parts one after the other
abbrev pub concat : List String → String
concat [] = ""
concat (p ∷ ps) = p ++ concat ps
