-- ===== src/Prelude/Glob.antt =====
-- Shell patterns, as Python's fnmatch has them on POSIX.
use Prim.Native.Char.{Char, code}
use Prim.Native.String.{String}
use Prim.Native.String
use Prim.Native.Nat.{ℕ, zero, suc}
use mathlib.Core.Bool.{Bool, true, false, not, ◌&&◌, ◌||◌}
use mathlib.Core.List.{List, [], ◌∷◌}
use mathlib.Core.Path.{◌≡◌, refl}
use mathlib.Core.Option.{Option, none, some}
use resp_bench.Prelude.Tests.{◌==◌, leb, if◌then◌else◌}

pub data Piece : Type 0 where
  star any_char : Piece
  literal : Char → Piece
  one_of : Bool → String → Piece

abbrev in_range : Char → Char → Char → Bool
in_range low high c = leb (code low) (code c) && leb (code c) (code high)

-- Whether a character is in a set such as `a-z_`; a hyphen at an end stands for itself.
abbrev in_set : String → Char → Bool
in_set String.[] c = false
in_set (String.◌∷◌ a String.[]) c = code a == code c
in_set (String.◌∷◌ a (String.◌∷◌ b String.[])) c = code a == code c || code b == code c
in_set (String.◌∷◌ a (String.◌∷◌ h (String.◌∷◌ b s))) c = elim (code h == 45) [
  | true ↦ in_range a b c || in_set s c
  | false ↦ code a == code c || in_set (String.◌∷◌ h (String.◌∷◌ b s)) c
]

-- The text before the bracket that closes a set, and how long it is; the first character closes none.
abbrev until_bracket : Bool → String → Option String
until_bracket first String.[] = none
until_bracket first (String.◌∷◌ c s) =
    let rest = until_bracket false s in
    if code c == 93 && not first
    then some String.[]
    else elim rest [ none ↦ none | some set ↦ some (String.◌∷◌ c set) ]

abbrev set_piece : String → Piece
set_piece String.[] = one_of false String.[]
set_piece (String.◌∷◌ c s) = if code c == 33 then one_of true s else one_of false (String.◌∷◌ c s)

-- A `[` at the front of `s`: the set, if it is closed. A `!` in front is no first character of the set.
abbrev bracket_set : String → Option String
bracket_set String.[] = none
bracket_set (String.◌∷◌ c s) =
    if code c == 33
    then elim (until_bracket true s) [ none ↦ none | some set ↦ some (String.◌∷◌ c set) ]
    else until_bracket true (String.◌∷◌ c s)

-- The pieces of a pattern; `skip` characters of a set are left to pass.
abbrev pieces : ℕ → String → List Piece
pieces skip String.[] = []
pieces (suc skip) (String.◌∷◌ c s) = pieces skip s
pieces zero (String.◌∷◌ c s) =
    let rest = pieces zero s in
    if code c == 42
    then star ∷ rest
    else if code c == 63
    then any_char ∷ rest
    else if code c == 91
    then elim (bracket_set s) [
      | none ↦ literal c ∷ rest
      | some set ↦ set_piece set ∷ pieces (suc (Prim.Native.String.count set)) s
    ]
    else literal c ∷ rest

abbrev fits : Piece → Char → Bool
fits star c = true
fits any_char c = true
fits (literal d) c = code d == code c
fits (one_of negated set) c = if negated then not (in_set set c) else in_set set c

abbrev some_suffix : (String → Bool) → String → Bool
some_suffix test String.[] = test String.[]
some_suffix test (String.◌∷◌ c s) = test (String.◌∷◌ c s) || some_suffix test s

abbrev first_fits : Piece → (String → Bool) → String → Bool
first_fits p test String.[] = false
first_fits p test (String.◌∷◌ c s) = fits p c && test s

abbrev is_end : String → Bool
is_end String.[] = true
is_end (String.◌∷◌ c s) = false

abbrev matched : List Piece → String → Bool
matched [] s = is_end s
matched (star ∷ ps) s = some_suffix (matched ps) s
matched (p ∷ ps) s = first_fits p (matched ps) s

-- `fnmatch.fnmatch(name, pattern)`
unfoldable pub fnmatch : String → String → Bool
fnmatch name pattern = matched (pieces zero pattern) name

a_name : fnmatch "valkey-glide-8" "*-glide-[0-9]" ≡ true
unfolding fnmatch
a_name = refl
