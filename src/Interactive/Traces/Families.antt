-- ===== src/Interactive/Traces/Families.antt =====
-- That each driver stands once among those that are drawn.
use resp_bench.Prelude.{
  ℕ, ◌+◌, ◌≡◌, refl, sym, ap, subst, ◌∙◌, true, ◌||◌, Bool-cases, Option, inl, inr, none, some,
  List, [], ◌∷◌, ◌++◌, String, str_eq, eq_iff, if◌then◌else◌, arith,
}
use resp_bench.Prelude.Dict
use resp_bench.Prelude.Dict.{Dict, AllValues, AllValues-get}
use resp_bench.Interactive.Numbers.{sorted, insert, sorted_texts, text_less}
use resp_bench.Interactive.Colors.{Palette, get_driver_family, family_order, family_label_of}
use resp_bench.Interactive.Traces.{Drawn, drivers_of, draw_family, draw_families, drawing_order}

-- How often a text stands in a list, and a driver among those that are drawn.
abbrev pub times : String → List String → ℕ
times x [] = 0
times x (y ∷ ys) = (if str_eq y x then 1 else 0) + times x ys

abbrev pub times_drawn : String → List Drawn → ℕ
times_drawn x [] = 0
times_drawn x (d ∷ ds) = (if str_eq d.driver x then 1 else 0) + times_drawn x ds

-- A family that has a place in the charts.
abbrev pub IsPlaced : String → Type 0
IsPlaced family =
    (str_eq family "spring-data-valkey"
      || str_eq family "spring-data-redis"
      || str_eq family "low-level"
      || str_eq family "csharp"
      || str_eq family "node"
      || str_eq family "other")
    ≡ true

times-insert :
    (x y : String) (ys : List String) → times x (insert text_less y ys) ≡ times x (y ∷ ys)
unfolding insert
times-insert x y [] = refl
times-insert x y (z ∷ ys) = elim (Bool-cases (text_less z y)) [
  | inl e ↦ rw (e, times) (omega (arith, times-insert x y ys))
  | inr e ↦ rw (e, times) refl
]

times-sorted : (x : String) (ys : List String) → times x (sorted text_less ys) ≡ times x ys
unfolding sorted
times-sorted x [] = refl
times-sorted x (y ∷ ys) = times-insert x y _ ∙ omega (arith, times-sorted x ys)

times_drawn-append :
    (x : String) (ds es : List Drawn)
    → times_drawn x (ds ++ es) ≡ times_drawn x ds + times_drawn x es
times_drawn-append x [] es = omega arith
times_drawn-append x (d ∷ ds) es = omega (arith, times_drawn-append x ds es)

times_drawn-draw_family :
    (x family label : String) (ys : List String)
    → times_drawn x (draw_family family label ys) ≡ times x ys
times_drawn-draw_family x family label [] = refl
times_drawn-draw_family x family label (y ∷ ys) =
    omega (arith, times_drawn-draw_family x family label ys)

times-drivers_of :
    (p : Palette) (family x : String) (ys : List String)
    → times x (drivers_of p family ys)
      ≡ (if str_eq (get_driver_family p x) family then times x ys else 0)
times-drivers_of p family x [] = ground arith
times-drivers_of p family x (y ∷ ys) = elim (Bool-cases (str_eq y x)) [
  | inl e ↦
      let q : y ≡ x = ground (arith, eq_iff y x) in
      let same = ap (λ z. str_eq (get_driver_family p z) family) q in
      ground (arith, same, times-drivers_of p family x ys)
  | inr e ↦ ground (arith, times-drivers_of p family x ys)
]

-- A driver stands in the part of its own family alone.
in_family :
    (p : Palette) (family label x : String) (ys : List String)
    → times_drawn x (draw_family family label (sorted_texts (drivers_of p family ys)))
      ≡ (if str_eq (get_driver_family p x) family then times x ys else 0)
unfolding sorted_texts
in_family p family label x ys =
    times_drawn-draw_family x family label _ ∙ times-sorted x _ ∙ times-drivers_of p family x ys

-- What a driver of family `f`, which stands `n` times in the curves, has in the families of a list.
abbrev share : String → ℕ → List String → ℕ
share f n [] = 0
share f n (g ∷ gs) = (if str_eq f g then n else 0) + share f n gs

share-draw_families :
    (p : Palette) (x : String) (ys families : List String)
    → times_drawn x (draw_families p ys families)
      ≡ share (get_driver_family p x) (times x ys) families
share-draw_families p x ys [] = refl
share-draw_families p x ys (family ∷ families) =
    let first =
      draw_family family (family_label_of family) (sorted_texts (drivers_of p family ys)) in
    omega (
      arith,
      times_drawn-append x first (draw_families p ys families),
      in_family p family (family_label_of family) x ys,
      share-draw_families p x ys families,
    )

abbrev all_shares : String → ℕ → ℕ
all_shares f n = share f n family_order + (if str_eq f "other" then n else 0)

placed_once : (f : String) (n : ℕ) → IsPlaced f → all_shares f n ≡ n
placed_once f n h = elim (Bool-cases (str_eq f "spring-data-valkey")) [
  | inl e ↦ at_literal "spring-data-valkey" e (omega arith)
  | inr a ↦ elim (Bool-cases (str_eq f "spring-data-redis")) [
    | inl e ↦ at_literal "spring-data-redis" e (omega arith)
    | inr b ↦ elim (Bool-cases (str_eq f "low-level")) [
      | inl e ↦ at_literal "low-level" e (omega arith)
      | inr c ↦ elim (Bool-cases (str_eq f "csharp")) [
        | inl e ↦ at_literal "csharp" e (omega arith)
        | inr d ↦ elim (Bool-cases (str_eq f "node")) [
          | inl e ↦ at_literal "node" e (omega arith)
          | inr i ↦ ground (arith, h)
        ]
      ]
    ]
  ]
]
  where
    at_literal : (g : String) → str_eq f g ≡ true → all_shares g n ≡ n → all_shares f n ≡ n
    at_literal g e once =
        let q : f ≡ g = ground (arith, eq_iff f g) in subst (λ k. all_shares k n ≡ n) (sym q) once

pub family_IsPlaced :
    (p : Palette) (driver : String) (found : Option String)
    → AllValues IsPlaced p.families
    → Dict.get p.families driver ≡ found
    → IsPlaced (elim found [ none ↦ "other" | some family ↦ family ])
family_IsPlaced p driver none a e = refl
family_IsPlaced p driver (some family) a e = AllValues-get IsPlaced p.families driver family a e

-- As long as each known driver has one of the families of the charts, every driver of the curves is
-- drawn exactly as often as it stands among them, whatever its family, a driver of no family included.
pub drawing_order-times :
    (p : Palette) (drivers : List String)
    → AllValues IsPlaced p.families
    → (x : String) → times_drawn x (drawing_order p drivers) ≡ times x drivers
unfolding drawing_order get_driver_family
drawing_order-times p drivers a x =
    let rest = draw_family "other" "Other" (sorted_texts (drivers_of p "other" drivers)) in
    let f = get_driver_family p x in
    omega (
      arith,
      times_drawn-append x (draw_families p drivers family_order) rest,
      share-draw_families p x drivers family_order,
      in_family p "other" "Other" x drivers,
      placed_once f (times x drivers) (family_IsPlaced p x (Dict.get p.families x) a refl),
    )
