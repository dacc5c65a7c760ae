-- ===== src/Interactive/Colors/Kept.antt =====
-- That a driver keeps its colour.
use resp_bench.Prelude.{
  ◌≡◌, refl, ap, sym, ◌∙◌, Option, Bool-cases, inl, inr, none, some, List, [], ◌∷◌, String, str_eq,
  eq_iff, arith,
}
use resp_bench.Prelude.Dict
use resp_bench.Prelude.Dict.{Dict, get-put}
use resp_bench.Interactive.Colors.{Palette, color_of, get_driver_color, fallback_color}

-- The palette after the colours of some drivers were asked for.
abbrev pub asked : Palette → List String → Palette
asked p [] = p
asked p (driver ∷ drivers) = asked (get_driver_color p driver).1 drivers

-- A driver that has a colour has it after another one was asked for.
known_color :
    (p : Palette) (driver color other : String) (found : Option String)
    → Dict.get p.colors driver ≡ some color
    → Dict.get p.colors other ≡ found
    → Dict.get (color_of p other found).1.colors driver ≡ some color
known_color p driver color other (some c) h e = h
known_color p driver color other none h e =
    let new = fallback_color p.fallback_idx in
    elim (Bool-cases (str_eq other driver)) [
      | inl same ↦
          let q : other ≡ driver = ground (arith, eq_iff other driver) in
          absurd (cc (sym e ∙ ap (Dict.get p.colors) q ∙ h))
      | inr apart ↦ rw (get-put p.colors other driver new, apart) h
    ]

known_after :
    (p : Palette) (driver color : String) (drivers : List String)
    → Dict.get p.colors driver ≡ some color
    → Dict.get (asked p drivers).colors driver ≡ some color
unfolding get_driver_color
known_after p driver color [] h = h
known_after p driver color (other ∷ drivers) h =
    known_after (get_driver_color p other).1 driver color drivers
      (known_color p driver color other _ h refl)

-- Once asked for, a driver is known with the colour that it was given.
then_known :
    (p : Palette) (driver : String) (found : Option String)
    → Dict.get p.colors driver ≡ found
    → Dict.get (color_of p driver found).1.colors driver ≡ some (color_of p driver found).0
then_known p driver (some c) e = e
then_known p driver none e =
    let new = fallback_color p.fallback_idx in
    ground (arith, get-put p.colors driver driver new, eq_iff driver driver)

-- A driver that was given a colour, known or not, has it in every later chart, whichever drivers were
-- asked for in between.
pub get_driver_color-again :
    (p : Palette) (driver : String) (drivers : List String)
    → (get_driver_color (asked (get_driver_color p driver).1 drivers) driver).0
      ≡ (get_driver_color p driver).0
unfolding get_driver_color
get_driver_color-again p driver drivers =
    let before = get_driver_color p driver in
    let known =
      known_after before.1 driver before.0 drivers
        (then_known p driver (Dict.get p.colors driver) refl) in
    ap (λ o. (color_of (asked before.1 drivers) driver o).0) known
