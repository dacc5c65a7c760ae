-- ===== src/Interactive/Outliers/Sound.antt =====
-- That each of the four outlier tests comes to a set of indices of the runs
-- (scripts/generate_interactive_graphs.py).
use resp_bench.Prelude.{
  ℕ, zero, suc, ◌+◌, ◌-◌, ◌*◌, ◌/◌, ◌%◌, ◌<◌, ◌≤◌, Bool, true, false, ltb, List, [], ◌∷◌, length,
  ◌≡◌, refl, ◌==◌, if◌then◌else◌, All, Bool-cases, inl, inr, arith, ◌∙◌, ap, map, length-map, subst,
  All-map,
}
use resp_bench.Prelude.Int.{pos}
use resp_bench.Prelude.Results.{Result, ok, ok-injective}
use resp_bench.Floats.{Floats}
use resp_bench.Interactive.Numbers.{Numeric, sorted, insert, at, median}
use resp_bench.Interactive.Outliers.{
  union, flagged_from, number_from, detect_modified_zscore, detect_iqr, detect_pct_deviation,
  detect_grubbs, pair_lt,
}
use resp_bench.Interactive.Outliers.Votes.{
  Distinct, Within, Distinct-union, Within-union, Distinct-flagged_from, Within-flagged_from,
}

module _ {ℓ} {A : Type ℓ} (lt : A → A → Bool) where
  length-insert : (x : A) (ys : List A) → length (insert lt x ys) ≡ suc (length ys)
  unfolding insert
  length-insert x [] = refl
  length-insert x (y ∷ ys) = elim (Bool-cases (lt y x)) [
    | inl e ↦ rw (e, length) (ap suc (length-insert x ys))
    | inr e ↦ rw (e, length) refl
  ]

  length-sorted : (xs : List A) → length (sorted lt xs) ≡ length xs
  unfolding sorted
  length-sorted [] = refl
  length-sorted (x ∷ xs) = length-insert x (sorted lt xs) ∙ ap suc (length-sorted xs)

at_total {ℓ} : {A : Type ℓ} (xs : List A) (i : ℕ) → i < length xs → (x : A) × (at xs i ≡ ok x)
at_total [] i h = absurd (omega (arith, h))
at_total (x ∷ xs) zero h = (x, refl)
at_total (x ∷ xs) (suc i) h = at_total xs i (omega (arith, h))

module _ {ℓ κ} {A : Type ℓ} (P : A → Type κ) where
  All-insert : (lt : A → A → Bool) (x : A) (ys : List A) → P x → All P ys → All P (insert lt x ys)
  unfolding insert
  All-insert lt x [] p a = (p, tt)
  All-insert lt x (y ∷ ys) p a = elim (Bool-cases (lt y x)) [
    | inl e ↦ rw (e, All) (a.0, All-insert lt x ys p a.1)
    | inr e ↦ rw (e, All) (p, a)
  ]

  All-sorted : (lt : A → A → Bool) (xs : List A) → All P xs → All P (sorted lt xs)
  unfolding sorted
  All-sorted lt [] a = tt
  All-sorted lt (x ∷ xs) a = All-insert lt x (sorted lt xs) a.0 (All-sorted lt xs a.1)

  All-at : (xs : List A) (i : ℕ) (x : A) → All P xs → at xs i ≡ ok x → P x
  All-at [] i x a h = absurd (cc h)
  All-at (y ∷ xs) zero x a h = subst P (ok-injective h) a.0
  All-at (y ∷ xs) (suc i) x a h = All-at xs i x a.1 h

All-number_from {ℓ} :
    {A : Type ℓ} (i : ℕ) (xs : List A)
    → All (λ p. (i ≤ p.1) × (p.1 < i + length xs)) (number_from i xs)
All-number_from i [] = tt
All-number_from i (x ∷ xs) = (
  (omega arith, omega arith),
  All-map (number_from (suc i) xs) (λ p h. (omega (arith, h.0), omega (arith, h.1)))
      (All-number_from (suc i) xs),
)

length-number_from {ℓ} : {A : Type ℓ} (i : ℕ) (xs : List A) → length (number_from i xs) ≡ length xs
length-number_from i [] = refl
length-number_from i (x ∷ xs) = ap suc (length-number_from (suc i) xs)

-- A set of indices below `n`.
abbrev pub Sound : ℕ → List ℕ → Type 0
Sound n s = Distinct s × Within 0 n s

Sound-flagged_from {ℓ} :
    {A : Type ℓ} (test : A → Bool) (vs : List A) → Sound (length vs) (flagged_from test 0 vs)
Sound-flagged_from test vs = (Distinct-flagged_from test 0 vs, Within-flagged_from test 0 vs)

Sound-unless {ℓ} :
    {A : Type ℓ} (b : Bool) (test : A → Bool) (vs : List A)
    → Sound (length vs) (if b then [] else flagged_from test 0 vs)
Sound-unless true test vs = (tt, tt)
Sound-unless false test vs = Sound-flagged_from test vs

pub Sound-union : (n : ℕ) (s t : List ℕ) → Sound n s → Sound n t → Sound n (union s t)
Sound-union n s t hs ht = (Distinct-union s t hs.0 ht.0, Within-union 0 n s t hs.1 ht.1)

Sound-top : (b : Bool) (n i : ℕ) → i < n → Sound n (if b then i ∷ [] else [])
Sound-top true n i h = ((refl, tt), ((omega arith, omega (arith, h)), tt))
Sound-top false n i h = (tt, tt)

-- What an outlier test comes to.
abbrev pub Comes : ℕ → Result (List ℕ) → Type 0
Comes n result = (s : List ℕ) × (result ≡ ok s) × Sound n s

no_flags : (n : ℕ) → Comes n (ok [])
no_flags n = ([], refl, (tt, tt))

module _ (fl : Floats) (num : Numeric fl) where
  median_total : (vs : List fl.Float) → 0 < length vs → (m : fl.Float) × (median fl num vs ≡ ok m)
  unfolding median
  median_total vs h =
      let same = length-sorted num.ltb vs in
      let half =
        at_total (sorted num.ltb vs) (length (sorted num.ltb vs) / 2) (omega (arith, same, h)) in
      elim (Bool-cases (length (sorted num.ltb vs) % 2 == 1)) [
        | inl odd ↦ rw odd half
        | inr even ↦
            let (low, e) =
              at_total (sorted num.ltb vs) (length (sorted num.ltb vs) / 2 - 1)
                (ground (arith, same, h, even)) in
            rw (even, e, half.1) (_, refl)
      ]

  pub zscore_flags : (vs : List fl.Float) → Comes (length vs) (detect_modified_zscore fl num vs)
  unfolding detect_modified_zscore
  zscore_flags vs = elim (Bool-cases (ltb (length vs) 3)) [
    | inl few ↦ rw few (no_flags _)
    | inr enough ↦
        let some_values : 0 < length vs = ground (arith, enough) in
        let (med, e) = median_total vs some_values in
        let deviations = map (λ v. num.abs (num.sub v med)) vs in
        let (mid, f) =
          median_total deviations
            (omega (arith, length-map (λ v. num.abs (num.sub v med)) vs, some_values)) in
        rw (enough, e, f) (_, refl, Sound-unless _ _ vs)
  ]

  pub iqr_flags : (vs : List fl.Float) → Comes (length vs) (detect_iqr fl num vs)
  unfolding detect_iqr
  iqr_flags vs = elim (Bool-cases (ltb (length vs) 4)) [
    | inl few ↦ rw few (no_flags _)
    | inr enough ↦
        let same = length-sorted num.ltb vs in
        let (q1, e) =
          at_total (sorted num.ltb vs) (length (sorted num.ltb vs) / 4)
            (ground (arith, same, enough)) in
        let (q3, f) =
          at_total (sorted num.ltb vs) (3 * length (sorted num.ltb vs) / 4)
            (ground (arith, same, enough)) in
        rw (enough, e, f) (_, refl, Sound-flagged_from _ vs)
  ]

  pub pct_flags : (vs : List fl.Float) → Comes (length vs) (detect_pct_deviation fl num vs)
  unfolding detect_pct_deviation
  pct_flags vs = elim (Bool-cases (ltb (length vs) 2)) [
    | inl few ↦ rw few (no_flags _)
    | inr enough ↦
        let (med, e) = median_total vs (ground (arith, enough)) in
        rw (enough, e) (_, refl, Sound-unless _ _ vs)
  ]

  pub grubbs_flags : (vs : List fl.Float) → Comes (length vs) (detect_grubbs fl num vs)
  unfolding detect_grubbs
  grubbs_flags vs = elim (Bool-cases (ltb (length vs) 3)) [
    | inl few ↦ rw few (no_flags _)
    | inr enough ↦ rw enough (elim (Bool-cases (fl.eqb (num.stdev vs) (fl.of_int (pos 0)))) [
      | inl none_apart ↦ rw none_apart (no_flags _)
      | inr apart ↦
          let gs = map (λ v. fl.div (num.abs (num.sub v (num.mean vs))) (num.stdev vs)) vs in
          let order : fl.Float × ℕ → fl.Float × ℕ → Bool = λ p q. pair_lt fl num q p in
          let size : length gs ≡ length vs = length-map _ vs in
          let ranked = length-sorted order (number_from 0 gs) ∙ length-number_from 0 gs ∙ size in
          let (top, e) =
            at_total (sorted order (number_from 0 gs)) 0 (ground (arith, ranked, enough)) in
          let bound = All-at _ _ 0 top (All-sorted _ order _ (All-number_from 0 gs)) e in
          let high : top.1 < length vs = omega (arith, bound.1, size) in
          rw (apart, e) (_, refl, Sound-top _ (length vs) top.1 high)
    ])
  ]
