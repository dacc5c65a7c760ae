-- ===== src/Interactive/Outliers/Votes.antt =====
-- Sets of indices: their members, that a member stands once, and what is left of a list without them.
use resp_bench.Prelude.{
  ℕ, zero, suc, ◌+◌, ◌<◌, ◌≤◌, Bool, false, ◌||◌, ◌&&◌, leb, List, [], ◌∷◌, length, ◌≡◌, refl, ◌==◌,
  if◌then◌else◌, All, All-map, Bool-cases, inl, inr, arith, ◌∙◌, ap,
}
use resp_bench.Interactive.Outliers.{mem, union, flagged_from, kept_from, votes, agreed}

abbrev pub Distinct : List ℕ → Type 0
Distinct [] = Unit
Distinct (i ∷ s) = (mem i s ≡ false) × Distinct s

-- The members are `low` to `low + n - 1` at most.
abbrev pub Within : ℕ → ℕ → List ℕ → Type 0
Within low n s = All (λ i. (low ≤ i) × (i < low + n)) s

pub mem-union : (i : ℕ) (s t : List ℕ) → mem i (union s t) ≡ (mem i s || mem i t)
unfolding union
mem-union i [] t = refl
mem-union i (j ∷ s) t = ground (arith, mem-union i s t, mem-union j s t)

pub mem-agreed :
    (i : ℕ) (sets : List (List ℕ)) (s : List ℕ)
    → mem i (agreed sets s) ≡ (mem i s && leb 2 (votes i sets))
unfolding agreed
mem-agreed i sets [] = refl
mem-agreed i sets (j ∷ s) = elim (Bool-cases (j == i)) [
  | inl e ↦
      let same : j ≡ i = ground arith in
      let count : votes j sets ≡ votes i sets = ap (λ k. votes k sets) same in
      ground (arith, mem-agreed i sets s)
  | inr e ↦ ground (arith, mem-agreed i sets s)
]

pub Distinct-union : (s t : List ℕ) → Distinct s → Distinct t → Distinct (union s t)
unfolding union
Distinct-union [] t hs ht = ht
Distinct-union (i ∷ s) t hs ht = elim (Bool-cases (mem i (union s t))) [
  | inl e ↦ rw e (Distinct-union s t hs.1 ht)
  | inr e ↦ rw e (e, Distinct-union s t hs.1 ht)
]

pub Within-union :
    (low n : ℕ) (s t : List ℕ) → Within low n s → Within low n t → Within low n (union s t)
unfolding union
Within-union low n [] t hs ht = ht
Within-union low n (i ∷ s) t hs ht = elim (Bool-cases (mem i (union s t))) [
  | inl e ↦ rw e (Within-union low n s t hs.1 ht)
  | inr e ↦ rw e (hs.0, Within-union low n s t hs.1 ht)
]

mem-agreed_absent :
    (i : ℕ) (sets : List (List ℕ)) (s : List ℕ) → mem i s ≡ false → mem i (agreed sets s) ≡ false
mem-agreed_absent i sets s h = mem-agreed i sets s ∙ ground (arith, h)

pub Distinct-agreed : (sets : List (List ℕ)) (s : List ℕ) → Distinct s → Distinct (agreed sets s)
unfolding agreed
Distinct-agreed sets [] h = tt
Distinct-agreed sets (i ∷ s) h = elim (Bool-cases (leb 2 (votes i sets))) [
  | inl e ↦ rw e (mem-agreed_absent i sets s h.0, Distinct-agreed sets s h.1)
  | inr e ↦ rw e (Distinct-agreed sets s h.1)
]

pub Within-agreed :
    (low n : ℕ) (sets : List (List ℕ)) (s : List ℕ) → Within low n s → Within low n (agreed sets s)
unfolding agreed
Within-agreed low n sets [] h = tt
Within-agreed low n sets (i ∷ s) h = elim (Bool-cases (leb 2 (votes i sets))) [
  | inl e ↦ rw e (h.0, Within-agreed low n sets s h.1)
  | inr e ↦ rw e (Within-agreed low n sets s h.1)
]

-- An index before the first stands in no set of later ones.
mem_before : (i low n : ℕ) (s : List ℕ) → i < low → Within low n s → mem i s ≡ false
mem_before i low n [] h w = refl
mem_before i low n (j ∷ s) h w = ground (arith, mem_before i low n s h w.1, w.0)

pub Within-wider : (low n : ℕ) (s : List ℕ) → Within (suc low) n s → Within low (suc n) s
Within-wider low n s w = All-map s (λ i h. (omega (arith, h.0), omega (arith, h.1))) w

module _ {ℓ} {A : Type ℓ} where
  pub Within-flagged_from :
      (test : A → Bool) (i : ℕ) (vs : List A) → Within i (length vs) (flagged_from test i vs)
  unfolding flagged_from
  Within-flagged_from test i [] = tt
  Within-flagged_from test i (v ∷ vs) =
      let later = Within-wider i (length vs) _ (Within-flagged_from test (suc i) vs) in
      elim (Bool-cases (test v)) [
        | inl e ↦ rw e ((omega arith, omega arith), later)
        | inr e ↦ rw e later
      ]

  pub Distinct-flagged_from :
      (test : A → Bool) (i : ℕ) (vs : List A) → Distinct (flagged_from test i vs)
  unfolding flagged_from
  Distinct-flagged_from test i [] = tt
  Distinct-flagged_from test i (v ∷ vs) =
      let later = Distinct-flagged_from test (suc i) vs in
      elim (Bool-cases (test v)) [
        | inl e ↦ rw e (
          mem_before i (suc i) (length vs) _ (omega arith) (Within-flagged_from test (suc i) vs),
          later,
        )
        | inr e ↦ rw e later
      ]

-- How many of the indices `i` to `i + n - 1` are members.
abbrev hits : List ℕ → ℕ → ℕ → ℕ
hits s i zero = 0
hits s i (suc n) = (if mem i s then 1 else 0) + hits s (suc i) n

hits_nil : (i n : ℕ) → hits [] i n ≡ 0
hits_nil i zero = refl
hits_nil i (suc n) = omega (arith, hits_nil (suc i) n)

-- An index that lies before those that are counted changes nothing.
hits_before : (j : ℕ) (s : List ℕ) (i n : ℕ) → j < i → hits (j ∷ s) i n ≡ hits s i n
hits_before j s i zero h = refl
hits_before j s i (suc n) h = ground (arith, hits_before j s (suc i) n (omega (arith, h)))

hits_cons :
    (j : ℕ) (s : List ℕ) (i n : ℕ)
    → mem j s ≡ false
    → i ≤ j
    → j < i + n
    → hits (j ∷ s) i n ≡ suc (hits s i n)
hits_cons j s i zero m low high = absurd (omega (arith, low, high))
hits_cons j s i (suc n) m low high = elim (Bool-cases (i == j)) [
  | inl e ↦
      let same : i ≡ j = ground arith in
      let absent : mem i s ≡ false = ap (λ k. mem k s) same ∙ m in
      ground (arith, hits_before j s (suc i) n (omega (arith, same)))
  | inr e ↦
      let after : suc i ≤ j = ground (arith, low) in
      ground (arith, hits_cons j s (suc i) n m after (omega (arith, high)))
]

hits_all : (s : List ℕ) (i n : ℕ) → Distinct s → Within i n s → hits s i n ≡ length s
hits_all [] i n d w = hits_nil i n
hits_all (j ∷ s) i n d w = hits_cons j s i n d.0 w.0.0 w.0.1 ∙ ap suc (hits_all s i n d.1 w.1)

module _ {ℓ} {A : Type ℓ} where
  kept_hits :
      (s : List ℕ) (i : ℕ) (vs : List A)
      → length (kept_from s i vs) + hits s i (length vs) ≡ length vs
  unfolding kept_from
  kept_hits s i [] = refl
  kept_hits s i (v ∷ vs) = ground (arith, kept_hits s (suc i) vs)

  -- What is kept and what is left out are all there is.
  pub length-kept_from :
      (s : List ℕ) (i : ℕ) (vs : List A)
      → Distinct s
      → Within i (length vs) s
      → length (kept_from s i vs) + length s ≡ length vs
  length-kept_from s i vs d w = omega (arith, kept_hits s i vs, hits_all s i (length vs) d w)
