-- ===== src/Interactive/Outliers/Consensus.antt =====
-- The consensus of the four outlier tests (scripts/generate_interactive_graphs.py): that it comes to a
-- set for any throughputs, and which runs are in it.
use resp_bench.Prelude.{
  ℕ, ◌+◌, ◌<◌, true, false, leb, ltb, List, [], ◌∷◌, length, ◌≡◌, refl, if◌then◌else◌, All,
  Bool-cases, inl, inr, arith, sym, ◌∙◌, ap, All-map,
}
use resp_bench.Prelude.Results.{ok, ok-injective}
use resp_bench.Floats.{Floats}
use resp_bench.Interactive.Numbers.{Numeric}
use resp_bench.Interactive.Outliers.{
  mem, union, keep, votes, agreed, detect_modified_zscore, detect_iqr, detect_pct_deviation,
  detect_grubbs, consensus_of, find_consensus_outliers,
}
use resp_bench.Interactive.Outliers.Votes.{
  mem-union, mem-agreed, Distinct-agreed, Within-agreed, length-kept_from,
}
use resp_bench.Interactive.Outliers.Sound.{
  Comes, Sound-union, zscore_flags, iqr_flags, pct_flags, grubbs_flags,
}

module _ (fl : Floats) (num : Numeric fl) where
  consensus_flags : (vs : List fl.Float) → Comes (length vs) (consensus_of fl num vs)
  unfolding consensus_of
  consensus_flags vs =
      let (a, ea, sa) = zscore_flags fl num vs in
      let (b, eb, sb) = iqr_flags fl num vs in
      let (c, ec, sc) = pct_flags fl num vs in
      let (d, ed, sd) = grubbs_flags fl num vs in
      let n = length vs in
      let all = Sound-union n _ d (Sound-union n _ c (Sound-union n a b sa sb) sc) sd in
      let sets = a ∷ b ∷ c ∷ d ∷ [] in
      rw (ea, eb, ec, ed) (_, refl, (Distinct-agreed sets _ all.0, Within-agreed 0 n sets _ all.1))

  find_few :
      (vs : List fl.Float) → ltb (length vs) 3 ≡ true → find_consensus_outliers fl num vs ≡ ok []
  unfolding find_consensus_outliers
  find_few vs few = ap (λ b. if b then ok [] else consensus_of fl num vs) few

  find_enough :
      (vs : List fl.Float)
      → ltb (length vs) 3 ≡ false
      → find_consensus_outliers fl num vs ≡ consensus_of fl num vs
  unfolding find_consensus_outliers
  find_enough vs enough = ap (λ b. if b then ok [] else consensus_of fl num vs) enough

  -- Whatever the throughputs are, the script comes to a set of outliers among the indices of the runs,
  -- each of them once, so that the runs that it keeps and those that it discards add up to all of them.
  pub consensus_total :
      (vs : List fl.Float)
      → (s : List ℕ) × (find_consensus_outliers fl num vs ≡ ok s)
        × (All (λ i. i < length vs) s)
        × (length (keep s vs) + length s ≡ length vs)
  consensus_total vs = elim (Bool-cases (ltb (length vs) 3)) [
    | inl few ↦ ([], find_few vs few, tt, length-kept_from [] 0 vs tt tt)
    | inr enough ↦
        let (s, e, sound) = consensus_flags vs in
        (
          s,
          find_enough vs enough ∙ e,
          All-map s (λ i h. omega (arith, h.1)) sound.1,
          length-kept_from s 0 vs sound.0 sound.1,
        )
  ]

  -- Of fewer than three runs, only the test of the deviation from the median flags any.
  few_runs :
      (vs : List fl.Float)
      → ltb (length vs) 3 ≡ true
      → (detect_modified_zscore fl num vs ≡ ok [])
        × (detect_iqr fl num vs ≡ ok [])
        × (detect_grubbs fl num vs ≡ ok [])
  unfolding detect_modified_zscore detect_iqr detect_grubbs
  few_runs vs few =
      let fewer : ltb (length vs) 4 ≡ true = ground (arith, few) in
      (rw few refl, rw fewer refl, rw few refl)

  consensus_eq :
      (vs : List fl.Float) (a b c d : List ℕ)
      → detect_modified_zscore fl num vs ≡ ok a
      → detect_iqr fl num vs ≡ ok b
      → detect_pct_deviation fl num vs ≡ ok c
      → detect_grubbs fl num vs ≡ ok d
      → consensus_of fl num vs ≡ ok (agreed (a ∷ b ∷ c ∷ d ∷ []) (union (union (union a b) c) d))
  unfolding consensus_of
  consensus_eq vs a b c d ea eb ec ed = rw (ea, eb, ec, ed) refl

  -- A run is an outlier exactly if at least two of the four tests flag it, also where there are fewer
  -- runs than the script looks at.
  pub outliers_iff :
      (vs : List fl.Float) (zscore iqr pct grubbs s : List ℕ)
      → detect_modified_zscore fl num vs ≡ ok zscore
      → detect_iqr fl num vs ≡ ok iqr
      → detect_pct_deviation fl num vs ≡ ok pct
      → detect_grubbs fl num vs ≡ ok grubbs
      → find_consensus_outliers fl num vs ≡ ok s
      → (i : ℕ) → mem i s ≡ leb 2 (votes i (zscore ∷ iqr ∷ pct ∷ grubbs ∷ []))
  outliers_iff vs a b c d s ea eb ec ed es i = elim (Bool-cases (ltb (length vs) 3)) [
    | inl few ↦
        let (na, nb, nd) = few_runs vs few in
        let a_none = ap (mem i) (ok-injective (sym ea ∙ na)) in
        let b_none = ap (mem i) (ok-injective (sym eb ∙ nb)) in
        let d_none = ap (mem i) (ok-injective (sym ed ∙ nd)) in
        let s_none = ap (mem i) (ok-injective (sym es ∙ find_few vs few)) in
        ground (arith, a_none, b_none, d_none, s_none)
    | inr enough ↦
        let same = sym es ∙ find_enough vs enough ∙ consensus_eq vs a b c d ea eb ec ed in
        let member = ap (mem i) (ok-injective same) in
        ground (
          arith,
          member,
          mem-agreed i (a ∷ b ∷ c ∷ d ∷ []) (union (union (union a b) c) d),
          mem-union i (union (union a b) c) d,
          mem-union i (union a b) c,
          mem-union i a b,
        )
  ]
