-- ===== src/Prelude/Results.antt =====
-- Exceptions as values. `value_error` and `failure` are Python's ValueError and any other subclass
-- of Exception; `ill_typed`
-- is the TypeError or AttributeError of a value of a type that the code does not expect; the rest
-- derive from BaseException alone.
use Prim.Native.String.{String}
use mathlib.Core.Path.{◌≡◌, refl, ap}
use mathlib.Core.Bool.{Bool, true, false}
use mathlib.Core.Logic.{◌↔◌}
use mathlib.Core.List.{List, [], ◌∷◌}

pub data Exc : Type 0 where
  value_error : String → Exc
  failure : String → Exc
  ill_typed : Exc
  cancelled keyboard_interrupt system_exit : Exc

-- `isinstance(exc, Exception)`
abbrev pub is_exception : Exc → Bool
is_exception (value_error m) = true
is_exception (failure m) = true
is_exception ill_typed = true
is_exception _ = false

-- What code that may raise comes to.
pub data Result {ℓ} (V : Type ℓ) : Type ℓ where
  err : Exc → Result V
  ok : V → Result V

module _ {ℓ κ} {A : Type ℓ} {B : Type κ} where
  -- An exception skips what follows.
  infixl 5 ◌>>=◌
  abbrev pub ◌>>=◌ : Result A → (A → Result B) → Result B
  err raised >>= next = err raised
  ok value >>= next = next value

module _ {ℓ} {B : Type ℓ} where
  -- A check, and what follows it.
  infixl 5 ◌>>◌
  abbrev pub ◌>>◌ : Result (Unit {0}) → Result B → Result B
  check >> next = check >>= λ passed. next

-- `if test: raise exc`
abbrev pub raise_if : Bool → Exc → Result (Unit {0})
raise_if true e = err e
raise_if false e = ok tt

-- `[f(x) for x in xs]`, where `f` may raise
module _ {ℓ κ} {A : Type ℓ} {B : Type κ} where
  unfoldable pub map_result : (A → Result B) → List A → Result (List B)
  map_result f [] = ok []
  map_result f (x ∷ xs) = f x >>= λ y. map_result f xs >>= λ ys. ok (y ∷ ys)

  pub >>=-eq-ok :
      (first : Result A) (next : A → Result B) {final : B}
      → (first >>= next) ≡ ok final
      → (value : A) × (first ≡ ok value) × (next value ≡ ok final)
  >>=-eq-ok (err raised) next h = cc
  >>=-eq-ok (ok value) next h = (value, refl, h)

-- A chain of checks passes exactly if each of them does.
pub >>-ok_iff : (m k : Result (Unit {0})) → ((m >> k) ≡ ok tt) ↔ ((m ≡ ok tt) × (k ≡ ok tt))
>>-ok_iff (ok tt) k = (λ h. (refl, h), λ h. h.1)
>>-ok_iff (err e) k = (λ h. cc, λ h. cc (h.0))

pub raise_if-ok_iff : (b : Bool) (e : Exc) → (raise_if b e ≡ ok tt) ↔ (b ≡ false)
raise_if-ok_iff true e = (λ h. cc, λ h. cc)
raise_if-ok_iff false e = (λ h. refl, λ h. refl)

-- A chain of checks passes exactly under both conditions.
pub check_iff {ℓ κ} :
    {A : Type ℓ} {B : Type κ} (m k : Result (Unit {0}))
    → (m ≡ ok tt) ↔ A
    → (k ≡ ok tt) ↔ B
    → ((m >> k) ≡ ok tt) ↔ (A × B)
check_iff m k a b = (
  λ h. let both = (>>-ok_iff m k).0 h in (a.0 both.0, b.0 both.1),
  λ h. (>>-ok_iff m k).1 (a.1 h.0, b.1 h.1),
)

pub raise_if_iff {ℓ} :
    {A : Type ℓ} (b : Bool) (e : Exc) → (b ≡ false) ↔ A → (raise_if b e ≡ ok tt) ↔ A
raise_if_iff b e a = (λ h. a.0 ((raise_if-ok_iff b e).0 h), λ h. (raise_if-ok_iff b e).1 (a.1 h))

pub ok-injective {ℓ} : {A : Type ℓ} {a b : A} → ok a ≡ ok b → a ≡ b
ok-injective {a = a} p = ap (λ r. elim r [ ok x ↦ x | err e ↦ a ]) p
