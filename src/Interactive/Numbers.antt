-- ===== src/Interactive/Numbers.antt =====
-- The numbers of the interactive graphs (scripts/generate_interactive_graphs.py): what the script uses
-- of Python's floats, `math` and `statistics` besides the operations of `Floats`; and `sorted`.
use Prim.Native.String
use Prim.Native.Nat.{Ordering}
use resp_bench.Prelude.{
  ℕ, Bool, true, false, none, some, List, [], ◌∷◌, String, length, get_elem?, ◌/◌, ◌%◌, ◌==◌, ◌-◌,
  if◌then◌else◌,
}
use resp_bench.Prelude.Results.{failure, Result, ok, err, ◌>>=◌}
use resp_bench.Prelude.Int.{ℤ, pos}
use resp_bench.Floats.{Floats}

-- `literal` is the float of a decimal numeral; `mean` and `stdev` are those of `statistics`, for as
-- many values as they need.
pub record Numeric (fl : Floats) : Type 0 where
  pub literal : String → fl.Float
  pub infinity : fl.Float
  pub neg : fl.Float → fl.Float
  pub sub : fl.Float → fl.Float → fl.Float
  pub mul : fl.Float → fl.Float → fl.Float
  pub pow : fl.Float → ℕ → fl.Float
  pub abs : fl.Float → fl.Float
  pub sqrt : fl.Float → fl.Float
  pub log : fl.Float → fl.Float
  pub ltb : fl.Float → fl.Float → Bool
  pub mean : List fl.Float → fl.Float
  -- `round(x, n)`, `x % y`, and `int(x)`
  pub round : fl.Float → ℕ → fl.Float
  pub modulo : fl.Float → fl.Float → fl.Float
  pub to_int : fl.Float → ℤ
  pub stdev : List fl.Float → fl.Float

-- `sorted` by the order `<`: an element stands before those of the rest that are not less.
module _ {ℓ} {A : Type ℓ} (lt : A → A → Bool) where
  unfoldable pub insert : A → List A → List A
  insert x [] = x ∷ []
  insert x (y ∷ ys) = elim (lt y x) [ true ↦ y ∷ insert x ys | false ↦ x ∷ y ∷ ys ]

  unfoldable pub sorted : List A → List A
  unfolding insert
  sorted [] = []
  sorted (x ∷ xs) = insert x (sorted xs)

abbrev pub text_less : String → String → Bool
text_less a b = elim (Prim.Native.String.compare a b) [ Ordering.lt ↦ true | _ ↦ false ]

-- `sorted(texts)`
unfoldable pub sorted_texts : List String → List String
unfolding sorted
sorted_texts texts = sorted text_less texts

-- `xs[i]` of an index in range
abbrev pub at {ℓ} : {A : Type ℓ} → List A → ℕ → Result A
at xs i = elim (get_elem? xs i) [ none ↦ err (failure "list index out of range") | some x ↦ ok x ]

module _ (fl : Floats) (num : Numeric fl) where
  -- `statistics.median` of a sorted list
  abbrev middle : List fl.Float → Result fl.Float
  middle values =
      let half = length values / 2 in
      if length values % 2 == 1
      then at values half
      else (at values (half - 1) >>= λ low.
          at values half >>= λ high. ok (fl.div (fl.add low high) (fl.of_int (pos 2))))

  unfoldable pub median : List fl.Float → Result fl.Float
  unfolding sorted insert
  median values = middle (sorted num.ltb values)
