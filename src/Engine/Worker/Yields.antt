-- ===== src/Engine/Worker/Yields.antt =====
-- How many requests of a worker end between two of its suspensions.
use resp_bench.Prelude.{
  ℕ, zero, suc, ◌≡◌, refl, ◌∙◌, ◌==◌, if◌then◌else◌, Option, none, some, List, [], ◌∷◌, get_elem?,
  set, arith,
}
use resp_bench.Floats.{Floats}
use resp_bench.Command.{Command}
use resp_bench.Metrics.{Histograms}
use resp_bench.Engine.Worker.{
  Setup, Place, at_top, asleep, Worker, Shared, Event, reply, Pool, Steps, done, then_step,
}

pub get_elem?-set {ℓ} :
    {A : Type ℓ} (xs : List A) (i j : ℕ) (x y : A)
    → get_elem? xs i ≡ some x
    → get_elem? (set xs i y) j ≡ (if i == j then some y else get_elem? xs j)
get_elem?-set [] i j x y h = absurd (cc h)
get_elem?-set (z ∷ xs) zero zero x y h = refl
get_elem?-set (z ∷ xs) zero (suc j) x y h = ground arith
get_elem?-set (z ∷ xs) (suc i) zero x y h = ground arith
get_elem?-set (z ∷ xs) (suc i) (suc j) x y h = get_elem?-set xs i j x y h ∙ ground arith

module _ (fl : Floats) (hs : Histograms) where
  -- The count of requests that ended since the last suspension, at an event that leaves the worker at a
  -- place: a sleep is a suspension, also one of no time.
  abbrev pub counted : ℕ → Event fl hs → Place fl hs → ℕ
  counted n e (asleep d) = 0
  counted n (reply o) at_top = suc n
  counted n e q = n

  abbrev pub counted_at : ℕ → Event fl hs → Option (Worker fl hs) → ℕ
  counted_at n e none = n
  counted_at n e (some w) = counted n e w.place

  -- How many requests of worker number j have ended, over some steps, since it last suspended itself.
  abbrev pub unsuspended : {env : Setup fl hs} {p q : Pool fl hs} → ℕ → Steps fl hs env p q → ℕ
  unsuspended j done = 0
  unsuspended j (then_step {r = r} i e s h) =
      let before = unsuspended j s in
      if i == j then counted_at before e (get_elem? r.workers j) else before

  -- The worker's own count is that one.
  abbrev Agrees : Event fl hs → Worker fl hs → Worker fl hs × Shared fl hs → Type 0
  Agrees e w next = counted w.since_yield e next.0.place ≡ next.0.since_yield

  -- The count of the steps is that of the worker.
  abbrev Tracks : ℕ → Pool fl hs → ℕ → Type 0
  Tracks j q n = (w : Worker fl hs) → get_elem? q.workers j ≡ some w → n ≡ w.since_yield
