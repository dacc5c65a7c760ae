-- ===== src/Command/Selector/Choice.antt =====
-- Which command `select` returns.
use resp_bench.Prelude.{
  ◌⊎◌, ◌∙◌, ℕ, zero, suc, ◌<◌, ◌≡◌, refl, true, false, none, some, List, [], ◌∷◌, length, get_elem?,
  arith, Bool-cases, inl, inr,
}
use resp_bench.Prelude.Int.{pos}
use resp_bench.Floats.{Floats}
use resp_bench.Command.{Command}
use resp_bench.Command.Selector.{
  total_weight, cumulate, build_cumulative_weights, CommandSelector, new, first_reached, last?,
  select,
}

module _ (fl : Floats) where
  -- What `first_reached` finds: the threshold is there, `r` is not above it, and above all before.
  pub record IsFirst (r : fl.Float) (ts : List fl.Float) (i : ℕ) : Type 0 where
    pub at : fl.Float
    pub here : get_elem? ts i ≡ some at
    pub reached : fl.leb r at ≡ true
    pub before : (j : ℕ) (t : fl.Float) → j < i → get_elem? ts j ≡ some t → fl.leb r t ≡ false

  IsFirst-zero : (r t : fl.Float) (ts : List fl.Float) → fl.leb r t ≡ true → IsFirst r (t ∷ ts) 0
  IsFirst-zero r t ts h = record {
    at = t;
    here = refl;
    reached = h;
    before = λ j u lt e. absurd (omega arith);
  }

  IsFirst-suc :
      (r t : fl.Float) (ts : List fl.Float) (i : ℕ)
      → fl.leb r t ≡ false
      → IsFirst r ts i
      → IsFirst r (t ∷ ts) (suc i)
  IsFirst-suc r t ts i h f = record {
    at = f.at;
    here = f.here;
    reached = f.reached;
    before = elim [ zero ↦ λ u lt e. cc (h, e) | suc j ↦ λ u lt e. f.before j u (omega arith) e ];
  }

  cumulate-length :
      (total running : fl.Float) (cs : List (Command fl))
      → length (cumulate fl total running cs) ≡ length cs
  cumulate-length total running [] = refl
  cumulate-length total running (c ∷ cs) =
      omega (arith, cumulate-length total (fl.add running (fl.div c.weight total)) cs)

  -- `r` is above every threshold.
  abbrev pub PassesAll : fl.Float → List fl.Float → Type 0
  PassesAll r ts = (j : ℕ) (t : fl.Float) → get_elem? ts j ≡ some t → fl.leb r t ≡ false

  PassesAll-cons :
      (r t : fl.Float) (ts : List fl.Float)
      → fl.leb r t ≡ false
      → PassesAll r ts
      → PassesAll r (t ∷ ts)
  PassesAll-cons r t ts h p = elim [ zero ↦ λ u e. cc (h, e) | suc j ↦ λ u e. p j u e ]

  -- What the scan comes to.
  data Scan (r : fl.Float) (ts : List fl.Float) : Type 0 where
    found : (i : ℕ) → first_reached fl r ts ≡ some i → IsFirst r ts i → Scan r ts
    passed : first_reached fl r ts ≡ none → PassesAll r ts → Scan r ts

  scan : (r : fl.Float) (ts : List fl.Float) → Scan r ts
  scan r [] = passed refl (λ j t e. absurd (cc e))
  scan r (t ∷ ts) = elim (Bool-cases (fl.leb r t)) [
    | inl h ↦ found 0 (rw h) (IsFirst-zero r t ts h)
    | inr h ↦ elim (scan r ts) [
      | found i e f ↦ found (suc i) (rw (h, e)) (IsFirst-suc r t ts i h f)
      | passed e p ↦ passed (rw (h, e)) (PassesAll-cons r t ts h p)
    ]
  ]

  get_elem?-lt :
      {A : Type 0} (xs : List A) (i : ℕ) (x : A) → get_elem? xs i ≡ some x → i < length xs
  get_elem?-lt [] i x e = absurd (cc e)
  get_elem?-lt (y ∷ ys) zero x e = omega arith
  get_elem?-lt (y ∷ ys) (suc i) x e = omega (arith, get_elem?-lt ys i x e)

  get_elem?-some :
      {A : Type 0} (xs : List A) (i : ℕ) → i < length xs → (x : A) × (get_elem? xs i ≡ some x)
  get_elem?-some [] i h = absurd (omega arith)
  get_elem?-some (y ∷ ys) zero h = (y, refl)
  get_elem?-some (y ∷ ys) (suc i) h = get_elem?-some ys i (omega arith)

  last?-some :
      {A : Type 0} (x : A) (xs : List A)
      → (y : A) × (last? fl (x ∷ xs) ≡ some y) × (get_elem? (x ∷ xs) (length xs) ≡ some y)
  last?-some x [] = (x, refl, refl)
  last?-some x (y ∷ ys) = last?-some y ys

  select-found :
      (s : CommandSelector fl) (r : fl.Float) (i : ℕ)
      → first_reached fl r s.cumulative_weights ≡ some i
      → select fl s r ≡ get_elem? s.commands i
  unfolding select
  select-found s r i e = rw (e, select)

  select-passed :
      (s : CommandSelector fl) (r : fl.Float)
      → first_reached fl r s.cumulative_weights ≡ none
      → select fl s r ≡ last? fl s.commands
  unfolding select
  select-passed s r e = rw (e, select)

  -- With at least one command, `select` returns one: that of the first threshold that the random
  -- number does not pass, and the last command where it passes them all.
  pub select_total :
      (c : Command fl) (cs : List (Command fl)) (r : fl.Float)
      → (i : ℕ) × (chosen : Command fl) × (select fl (new fl (c ∷ cs)) r ≡ some chosen)
        × (get_elem? (c ∷ cs) i ≡ some chosen)
        × (IsFirst r (build_cumulative_weights fl (c ∷ cs)) i
            ⊎ (PassesAll r (build_cumulative_weights fl (c ∷ cs)) × (i ≡ length cs)))
  unfolding new
  select_total c cs r = elim (scan r (build_cumulative_weights fl (c ∷ cs))) [
    | found i e f ↦
        let fits = get_elem?-lt (build_cumulative_weights fl (c ∷ cs)) i f.at f.here in
        let (chosen, here) = get_elem?-some (c ∷ cs) i (omega (arith, fits, same_length)) in
        (i, chosen, select-found (new fl (c ∷ cs)) r i e ∙ here, here, inl f)
    | passed e p ↦
        let (chosen, last, here) = last?-some c cs in
        (length cs, chosen, select-passed (new fl (c ∷ cs)) r e ∙ last, here, inr (p, refl))
  ]
    where
      same_length : length (build_cumulative_weights fl (c ∷ cs)) ≡ length (c ∷ cs)
      same_length = cumulate-length (total_weight fl (c ∷ cs)) (fl.of_int (pos 0)) (c ∷ cs)
