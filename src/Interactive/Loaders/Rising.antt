-- ===== src/Interactive/Loaders/Rising.antt =====
-- The points of a curve that the loaders sorted.
use resp_bench.Prelude.{◌≡◌, true, false, Bool-cases, inl, inr, List, [], ◌∷◌, All, All-map, arith}
use resp_bench.Prelude.Int.{ℤ, ◌≤ℤ◌, ltb_ℤ}
use resp_bench.Floats.{Floats}
use resp_bench.Interactive.Numbers.{sorted, insert}
use resp_bench.Interactive.Points.{Point, Curves, sort_curves, fewer_clients}

less_le : (m n : ℤ) → ltb_ℤ m n ≡ true → m ≤ℤ n
less_le m n h = ground (arith, h)

not_less_le : (m n : ℤ) → ltb_ℤ m n ≡ false → n ≤ℤ m
not_less_le m n h = ground (arith, h)

le_trans : (a b c : ℤ) → a ≤ℤ b → b ≤ℤ c → a ≤ℤ c
le_trans a b c h k = omega (arith, h, k)

-- The points by rising numbers of clients.
module _ (fl : Floats) where
  abbrev pub AtLeast : ℤ → List (Point fl) → Type 0
  AtLeast n points = All (λ p. n ≤ℤ p.0) points

  abbrev pub IsRising : List (Point fl) → Type 0
  IsRising [] = Unit
  IsRising (p ∷ points) = AtLeast p.0 points × IsRising points

  AtLeast-insert :
      (n : ℤ) (p : Point fl) (points : List (Point fl))
      → n ≤ℤ p.0
      → AtLeast n points
      → AtLeast n (insert (fewer_clients fl) p points)
  unfolding insert
  AtLeast-insert n p [] h a = (h, tt)
  AtLeast-insert n p (q ∷ points) h a = elim (Bool-cases (ltb_ℤ q.0 p.0)) [
    | inl e ↦ rw (e, All) (a.0, AtLeast-insert n p points h a.1)
    | inr e ↦ rw (e, All) (h, a)
  ]

  IsRising-insert :
      (p : Point fl) (points : List (Point fl))
      → IsRising points
      → IsRising (insert (fewer_clients fl) p points)
  unfolding insert
  IsRising-insert p [] r = (tt, tt)
  IsRising-insert p (q ∷ points) r = elim (Bool-cases (ltb_ℤ q.0 p.0)) [
    | inl e ↦
        rw (e, IsRising)
          (AtLeast-insert q.0 p points (less_le q.0 p.0 e) r.0, IsRising-insert p points r.1)
    | inr e ↦
        rw (e, IsRising)
          (
            (
              not_less_le q.0 p.0 e,
              All-map points (λ o h. le_trans p.0 q.0 o.0 (not_less_le q.0 p.0 e) h) r.0,
            ),
            r,
          )
  ]

  IsRising-sorted : (points : List (Point fl)) → IsRising (sorted (fewer_clients fl) points)
  unfolding sorted
  IsRising-sorted [] = tt
  IsRising-sorted (p ∷ points) =
      IsRising-insert p (sorted (fewer_clients fl) points) (IsRising-sorted points)

  pub IsRising-sort_curves : (curves : Curves fl) → All (λ c. IsRising c.1) (sort_curves fl curves)
  IsRising-sort_curves [] = tt
  IsRising-sort_curves ((k, points) ∷ rest) = (IsRising-sorted points, IsRising-sort_curves rest)
