-- ===== src/Command/Selector.antt =====
-- Weighted choice of a command (python/src/resp_bench/engine/command_selector.py). `r` is what
-- `random.random()` returns.
pub mod Choice
use resp_bench.Prelude.{
  ◌⊎◌, ℕ, zero, suc, ◌+◌, ◌<◌, ◌≡◌, refl, Bool, true, false, Option, none, some, List, [], ◌∷◌, map,
  length, get_elem?, arith, if◌then◌else◌, Bool-cases, inl, inr,
}
use resp_bench.Prelude.Int.{pos}
use resp_bench.Floats.{Floats}
use resp_bench.Command.{Command}

module _ (fl : Floats) where
  abbrev pub total_weight : List (Command fl) → fl.Float
  total_weight cs =
      let total = fl.sum (map (λ c. c.weight) cs) in
      if fl.eqb total (fl.of_int (pos 0)) then fl.of_int (pos 1) else total

  abbrev pub cumulate : fl.Float → fl.Float → List (Command fl) → List fl.Float
  cumulate total running [] = []
  cumulate total running (c ∷ cs) =
      let now = fl.add running (fl.div c.weight total) in now ∷ cumulate total now cs

  unfoldable pub build_cumulative_weights : List (Command fl) → List fl.Float
  build_cumulative_weights cs = cumulate (total_weight cs) (fl.of_int (pos 0)) cs

  pub record CommandSelector : Type 0 where
    pub commands : List (Command fl)
    pub cumulative_weights : List fl.Float

  unfoldable pub new : List (Command fl) → CommandSelector
  unfolding build_cumulative_weights
  new cs = record { commands = cs; cumulative_weights = build_cumulative_weights cs }

  -- The index of the first threshold that `r` does not pass.
  abbrev pub first_reached : fl.Float → List fl.Float → Option ℕ
  first_reached r [] = none
  first_reached r (t ∷ ts) =
      let rest = first_reached r ts in
      if fl.leb r t then some 0 else elim rest [ none ↦ none | some i ↦ some (suc i) ]

  abbrev pub last? {ℓ} : {A : Type ℓ} → List A → Option A
  last? [] = none
  last? (x ∷ []) = some x
  last? (x ∷ (y ∷ ys)) = last? (y ∷ ys)

  -- None stands for the IndexError of a selector with no commands.
  unfoldable pub select : CommandSelector → fl.Float → Option (Command fl)
  select s r = elim (first_reached r s.cumulative_weights) [
    | none ↦ last? s.commands
    | some i ↦ get_elem? s.commands i
  ]
