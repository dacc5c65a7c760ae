-- ===== src/Prelude/Dict.antt =====
-- A Python dict with text keys: an association list in order of insertion. Writing a key that is
-- there keeps its place.
use Prim.Native.String.{String}
use mathlib.Core.Path.{◌≡◌, refl}
use mathlib.Core.List.{List, [], ◌∷◌}
use mathlib.Core.Option.{Option, none, some}
use native.Mathlib.Omega.{arith}
use text.Mathlib.Text.{◌==◌ as str_eq}
use text.Mathlib.TextEquality.{eq_iff}
use Prim.Native.String
use Prim.Native.Nat.{ℕ, ◌+◌, Ordering}
use mathlib.Core.Logic.{inl, inr}
use mathlib.Core.Path.{subst}
use resp_bench.Prelude.Tests.{if◌then◌else◌, Bool-cases}

abbrev pub Dict {ℓ} : Type ℓ → Type ℓ
Dict V = List (String × V)

module _ {ℓ} {V : Type ℓ} where
  unfoldable pub get : Dict V → String → Option V
  get [] k = none
  get ((j, v) ∷ d) k = if str_eq j k then some v else get d k

  unfoldable pub put : Dict V → String → V → Dict V
  put [] k v = (k, v) ∷ []
  put ((j, w) ∷ d) k v = if str_eq j k then (j, v) ∷ d else (j, w) ∷ put d k v

  -- `dict.update`, and the effect of a loop of assignments
  unfoldable pub update : Dict V → Dict V → Dict V
  unfolding put
  update d [] = d
  update d ((k, v) ∷ e) = update (put d k v) e

  abbrev pub insert_item : String → V → Dict V → Dict V
  insert_item k v [] = (k, v) ∷ []
  insert_item k v ((j, w) ∷ d) = elim (Prim.Native.String.compare k j) [
    | Ordering.gt ↦ (j, w) ∷ insert_item k v d
    | _ ↦ (k, v) ∷ (j, w) ∷ d
  ]

  -- `sorted(d.items())`: the keys of a dict differ, so that no values are compared.
  unfoldable pub sorted_items : Dict V → Dict V
  sorted_items [] = []
  sorted_items ((k, v) ∷ d) = insert_item k v (sorted_items d)

  pub get-put :
      (d : Dict V) (k j : String) (v : V)
      → get (put d k v) j ≡ (if str_eq k j then some v else get d j)
  unfolding get put
  get-put [] k j v = refl
  get-put ((i, w) ∷ d) k j v = ground (arith, eq_iff k j, eq_iff i k, eq_iff i j, get-put d k j v)

abbrev pub empty {ℓ} : {V : Type ℓ} → Dict V
empty = []

-- The sum of a weight over the entries, after a write.
module _ {ℓ} {V : Type ℓ} (w : V → ℕ) where
  abbrev pub total : Dict V → ℕ
  total [] = 0
  total ((k, v) ∷ d) = w v + total d

  abbrev pub weight_at : Option V → ℕ
  weight_at none = 0
  weight_at (some v) = w v

  pub total-put :
      (d : Dict V) (k : String) (v : V) → total (put d k v) + weight_at (get d k) ≡ total d + w v
  unfolding get put
  total-put [] k v = omega arith
  total-put ((j, u) ∷ d) k v = ground (arith, total-put d k v)

module _ {ℓ κ} {V : Type ℓ} (P : V → Type κ) where
  abbrev pub AllValues : Dict V → Type κ
  AllValues [] = Unit
  AllValues ((k, v) ∷ d) = P v × AllValues d

  pub AllValues-put : (d : Dict V) (k : String) (v : V) → AllValues d → P v → AllValues (put d k v)
  unfolding put
  AllValues-put [] k v a p = (p, tt)
  AllValues-put ((j, u) ∷ d) k v a p = elim (Bool-cases (str_eq j k)) [
    | inl e ↦ rw e (p, a.1)
    | inr e ↦ rw e (a.0, AllValues-put d k v a.1 p)
  ]

  pub AllValues-get : (d : Dict V) (k : String) (v : V) → AllValues d → get d k ≡ some v → P v
  unfolding get
  AllValues-get [] k v a e = absurd (cc e)
  AllValues-get ((j, u) ∷ d) k v a e = elim (Bool-cases (str_eq j k)) [
    | inl h ↦ let q : u ≡ v = ground arith in subst P q a.0
    | inr h ↦ AllValues-get d k v a.1 (rw h at e)
  ]
