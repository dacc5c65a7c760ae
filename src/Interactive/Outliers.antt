-- ===== src/Interactive/Outliers.antt =====
-- The consensus of four outlier tests over the throughputs of repeated runs
-- (scripts/generate_interactive_graphs.py). A set of indices is the list of its members.
mod Votes
mod Sound
pub mod Consensus
use resp_bench.Prelude.{
  ℕ, suc, ◌+◌, ◌-◌, ◌*◌, ◌/◌, Bool, true, false, ◌||◌, not, leb, ltb, List, [], ◌∷◌, ◌++◌, length,
  map, ◌==◌, if◌then◌else◌,
}
use resp_bench.Prelude.Int.{pos}
use resp_bench.Prelude.Results.{failure, Result, ok, err, ◌>>=◌}
use resp_bench.Floats.{Floats}
use resp_bench.Interactive.Numbers.{Numeric, sorted, insert, at, median}
use resp_bench.Interactive.Critical.{grubbs_critical_value}

-- `i in s`
abbrev pub mem : ℕ → List ℕ → Bool
mem i [] = false
mem i (j ∷ s) = j == i || mem i s

-- `s | t`
unfoldable pub union : List ℕ → List ℕ → List ℕ
union [] t = t
union (i ∷ s) t = let rest = union s t in if mem i rest then rest else i ∷ rest

-- The indices, counted from `i`, of the elements that a loop over `enumerate` adds.
module _ {ℓ} {A : Type ℓ} where
  unfoldable pub flagged_from : (A → Bool) → ℕ → List A → List ℕ
  flagged_from test i [] = []
  flagged_from test i (v ∷ vs) =
      let rest = flagged_from test (suc i) vs in if test v then i ∷ rest else rest

  abbrev pub number_from : ℕ → List A → List (A × ℕ)
  number_from i [] = []
  number_from i (v ∷ vs) = (v, i) ∷ number_from (suc i) vs

  -- `[v for i, v in enumerate(values) if i not in outliers]`
  unfoldable pub kept_from : List ℕ → ℕ → List A → List A
  kept_from outliers i [] = []
  kept_from outliers i (v ∷ vs) =
      let rest = kept_from outliers (suc i) vs in if mem i outliers then rest else v ∷ rest

abbrev pub keep {ℓ} : {A : Type ℓ} → List ℕ → List A → List A
keep outliers values = kept_from outliers 0 values

abbrev one : Bool → ℕ
one true = 1
one false = 0

-- `sum(1 for s in sets if i in s)`
abbrev pub votes : ℕ → List (List ℕ) → ℕ
votes i [] = 0
votes i (s ∷ sets) = one (mem i s) + votes i sets

abbrev consensus_min_methods : ℕ
consensus_min_methods = 2

unfoldable pub agreed : List (List ℕ) → List ℕ → List ℕ
agreed sets [] = []
agreed sets (i ∷ indices) =
    let rest = agreed sets indices in
    if leb consensus_min_methods (votes i sets) then i ∷ rest else rest

module _ (fl : Floats) (num : Numeric fl) where
  abbrev is_zero : fl.Float → Bool
  is_zero x = fl.eqb x (fl.of_int (pos 0))

  abbrev far_in_mads : fl.Float → fl.Float → fl.Float → Bool
  far_in_mads med mad v =
      num.ltb (num.literal "3.5")
        (num.abs (fl.div (num.mul (num.literal "0.6745") (num.sub v med)) mad))

  unfoldable pub detect_modified_zscore : List fl.Float → Result (List ℕ)
  unfolding median flagged_from
  detect_modified_zscore values =
      if ltb (length values) 3
      then ok []
      else (median fl num values >>= λ med.
          let deviations = map (λ v. num.abs (num.sub v med)) values in
          median fl num deviations >>= λ middle.
          let mad = (if is_zero middle then num.mean deviations else middle) in
          ok (if is_zero mad then [] else flagged_from (far_in_mads med mad) 0 values))

  unfoldable pub detect_iqr : List fl.Float → Result (List ℕ)
  unfolding sorted flagged_from
  detect_iqr values =
      if ltb (length values) 4
      then ok []
      else (let sorted_v = sorted num.ltb values in
          let n = length sorted_v in
          at sorted_v (n / 4) >>= λ q1. at sorted_v (3 * n / 4) >>= λ q3.
          let reach = num.mul (num.literal "1.5") (num.sub q3 q1) in
          ok (
            flagged_from (λ v. num.ltb v (num.sub q1 reach) || num.ltb (fl.add q3 reach) v) 0
              values))

  unfoldable pub detect_pct_deviation : List fl.Float → Result (List ℕ)
  unfolding median flagged_from
  detect_pct_deviation values =
      if ltb (length values) 2
      then ok []
      else (median fl num values >>= λ med. ok (
          if is_zero med
          then []
          else flagged_from
              (λ v.
                num.ltb (num.literal "15.0")
                  (num.mul (fl.div (num.abs (num.sub v med)) med) (fl.of_int (pos 100))))
              0 values))

  -- The order of Python's pairs, on pairs whose second components differ.
  abbrev pub pair_lt : fl.Float × ℕ → fl.Float × ℕ → Bool
  pair_lt (g, i) (h, j) = if fl.eqb g h then ltb i j else num.ltb g h

  -- `g_values[0]` of the pairs in descending order
  abbrev first_of {ℓ} : {A : Type ℓ} → List A → Result A
  first_of xs = at xs 0

  unfoldable pub detect_grubbs : List fl.Float → Result (List ℕ)
  unfolding sorted grubbs_critical_value
  detect_grubbs values =
      if ltb (length values) 3
      then ok []
      else (let m = num.mean values in
          let s = num.stdev values in
          if is_zero s
          then ok []
          else (let g_values = number_from 0 (map (λ v. fl.div (num.abs (num.sub v m)) s) values) in
              first_of (sorted (λ p q. pair_lt q p) g_values) >>= λ top.
              let g_crit = grubbs_critical_value fl num (length values) (num.literal "0.05") in
              ok (if num.ltb g_crit top.0 then top.1 ∷ [] else [])))

  unfoldable pub consensus_of : List fl.Float → Result (List ℕ)
  unfolding union agreed detect_modified_zscore detect_iqr detect_pct_deviation detect_grubbs
  consensus_of values = detect_modified_zscore values >>= λ flags_mz.
      detect_iqr values >>= λ flags_iqr. detect_pct_deviation values >>= λ flags_pct.
      detect_grubbs values >>= λ flags_grubbs. ok (
        agreed (flags_mz ∷ flags_iqr ∷ flags_pct ∷ flags_grubbs ∷ [])
          (union (union (union flags_mz flags_iqr) flags_pct) flags_grubbs))

  unfoldable pub find_consensus_outliers : List fl.Float → Result (List ℕ)
  unfolding consensus_of
  find_consensus_outliers values = if ltb (length values) 3 then ok [] else consensus_of values
