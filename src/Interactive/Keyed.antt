-- ===== src/Interactive/Keyed.antt =====
-- Python dicts whose keys are not texts, in order of insertion (scripts/generate_interactive_graphs.py).
use resp_bench.Prelude.{Bool, Option, none, some, List, [], ◌∷◌, ◌++◌, if◌then◌else◌}

module _ {ℓ κ} {K : Type ℓ} {V : Type κ} (eq : K → K → Bool) where
  unfoldable pub find : List (K × V) → K → Option V
  find [] k = none
  find ((j, v) ∷ d) k = let rest = find d k in if eq j k then some v else rest

  unfoldable pub assign : List (K × V) → K → V → List (K × V)
  assign [] k v = (k, v) ∷ []
  assign ((j, w) ∷ d) k v = let rest = assign d k v in if eq j k then (j, v) ∷ d else (j, w) ∷ rest

-- `d[k].append(v)` of a `defaultdict(list)`
module _ {ℓ κ} {K : Type ℓ} {V : Type κ} (eq : K → K → Bool) where
  unfoldable pub append_to : List (K × List V) → K → V → List (K × List V)
  append_to [] k v = (k, v ∷ []) ∷ []
  append_to ((j, vs) ∷ d) k v =
      let rest = append_to d k v in if eq j k then (j, vs ++ (v ∷ [])) ∷ d else (j, vs) ∷ rest
