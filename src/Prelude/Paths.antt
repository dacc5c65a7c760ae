-- ===== src/Prelude/Paths.antt =====
-- Parts of a text, the last component of a POSIX path, and shell patterns, as Python's str, pathlib
-- and fnmatch have them.
use Prim.Native.Char.{code}
use Prim.Native.String.{String, ◌++◌}
use Prim.Native.String
use Prim.Native.Nat.{ℕ, zero, suc}
use mathlib.Core.Bool.{Bool, true, false, ◌&&◌, ◌||◌}
use mathlib.Core.Option.{Option, none, some}
use mathlib.Core.Path.{◌≡◌, refl}
use text.Mathlib.Text.{◌==◌ as str_eq}
use resp_bench.Prelude.Tests.{◌==◌, if◌then◌else◌}

-- `s.startswith(p)`
abbrev pub starts_with : String → String → Bool
starts_with s String.[] = true
starts_with String.[] (String.◌∷◌ p ps) = false
starts_with (String.◌∷◌ c s) (String.◌∷◌ p ps) = code c == code p && starts_with s ps

-- `s[1:]`
abbrev pub tail : String → String
tail String.[] = String.[]
tail (String.◌∷◌ c s) = s

-- `p in s`
abbrev pub contains : String → String → Bool
contains String.[] p = str_eq p ""
contains (String.◌∷◌ c s) p = starts_with (String.◌∷◌ c s) p || contains s p

-- `s.replace(old, new)` of an `old` that is not empty; `skip` characters of a match are left to pass.
abbrev replace_from : ℕ → String → String → String → String
replace_from skip String.[] old new = String.[]
replace_from (suc skip) (String.◌∷◌ c s) old new = replace_from skip s old new
replace_from zero (String.◌∷◌ c s) old new = elim (starts_with (String.◌∷◌ c s) old) [
  | true ↦ new ++ replace_from (Prim.Native.String.count (tail old)) s old new
  | false ↦ String.◌∷◌ c (replace_from zero s old new)
]

unfoldable pub replace : String → String → String → String
replace s old new = replace_from zero s old new

-- `PurePosixPath(p).name`: the last component that is not empty and not a dot.
abbrev component : String → String
component String.[] = String.[]
component (String.◌∷◌ c s) = if code c == 47 then String.[] else String.◌∷◌ c (component s)

abbrev newer : String → String → String
newer last next = if str_eq next "" || str_eq next "." then last else next

abbrev after_slash : String → String → String
after_slash last String.[] = last
after_slash last (String.◌∷◌ c s) =
    after_slash (if code c == 47 then newer last (component s) else last) s

unfoldable pub base_name : String → String
base_name p = after_slash "" (String.◌∷◌ (Prim.Native.String.char_at "/" 0) p)

-- The text before its last dot, if it has one.
abbrev before_last_dot : String → Option String
before_last_dot String.[] = none
before_last_dot (String.◌∷◌ c s) =
    let rest = before_last_dot s in
    elim rest [
      | some front ↦ some (String.◌∷◌ c front)
      | none ↦ if code c == 46 then some String.[] else none
    ]

abbrev ends_with_dot : String → Bool
ends_with_dot String.[] = false
ends_with_dot (String.◌∷◌ c s) = if str_eq s "" then code c == 46 else ends_with_dot s

-- `PurePosixPath(p).stem`: a dot that begins or ends the name begins no suffix.
unfoldable pub stem : String → String
unfolding base_name
stem p =
    let name = base_name p in
    elim (before_last_dot name) [
      | none ↦ name
      | some front ↦ if str_eq front "" || ends_with_dot name then name else front
    ]

a_stem : stem "configs/drivers/jedis.v2.json" ≡ "jedis.v2"
unfolding stem base_name
a_stem = refl

a_replacement : replace "xabcabx" "ab" "--" ≡ "x--c--x"
unfolding replace
a_replacement = refl

a_part : contains "xPONGy" "PONG" ≡ true
a_part = refl

a_hidden : stem "a/.bashrc" ≡ ".bashrc"
unfolding stem base_name
a_hidden = refl
