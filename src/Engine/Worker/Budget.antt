-- ===== src/Engine/Worker/Budget.antt =====
-- The shared budget of a phase with a number of requests.
use Prim.Native.Nat.{min}
use resp_bench.Prelude.{
  ℕ, ◌+◌, ◌≤◌, ◌≡◌, refl, leb, if◌then◌else◌, Option, some, List, [], ◌∷◌, length, get_elem?, set,
  sum_by, sum_by-set, sum_by-zero, ◌*◌, All, All-map, All-set, All-get, arith,
}
use resp_bench.Floats.{Floats}
use resp_bench.Limiter.{RateLimiter}
use resp_bench.Metrics.{Histograms, new_collector}
use resp_bench.Engine.Worker.{Setup, finished, Worker, Shared, Pool, Steps, start_pool}
use resp_bench.Engine.Worker.Invariants.{
  IsKept, Steps-keep, All-workers_from, length-workers_from, length-Steps,
}
use resp_bench.Config.Keyspace.{KeyspaceConfig}
use resp_bench.Engine.Worker.Moves.{claims, deaths, ends, requests, Moves, resume_at-Moves}

module _ (fl : Floats) (hs : Histograms) where
  -- The invariant of the pool.
  record IsBalanced (n : ℕ) (p : Pool fl hs) : Type 0 where
    spent :
        requests fl hs p.shared + sum_by (λ w. claims fl hs w.place) p.workers
        ≤ min p.shared.request_budget n
    kept :
        min p.shared.request_budget n
        ≤ requests fl hs p.shared
          + sum_by (λ w. claims fl hs w.place) p.workers
          + sum_by (λ w. deaths fl hs w.place) p.workers
    ended :
        All (λ w. ends fl hs w.place ≤ (if leb n p.shared.request_budget then 1 else 0)) p.workers

  All-grows :
      (n b b' : ℕ) (ws : List (Worker fl hs))
      → b ≤ b'
      → All (λ w. ends fl hs w.place ≤ (if leb n b then 1 else 0)) ws
      → All (λ w. ends fl hs w.place ≤ (if leb n b' then 1 else 0)) ws
  All-grows n b b' [] g a = tt
  All-grows n b b' (w ∷ ws) g a = (ground (arith, g, a.0), All-grows n b b' ws g a.1)

  Moves-IsBalanced :
      (n i : ℕ) (p : Pool fl hs) (w : Worker fl hs) (next : Worker fl hs × Shared fl hs)
      → get_elem? p.workers i ≡ some w
      → Moves fl hs n w p.shared next
      → IsBalanced n p
      → IsBalanced n (record { workers = set p.workers i next.0; shared = next.1 })
  Moves-IsBalanced n i p w next at m b =
      let c = sum_by-set (λ v. claims fl hs v.place) p.workers i w next.0 at in
      let d = sum_by-set (λ v. deaths fl hs v.place) p.workers i w next.0 at in
      let older =
        All-grows n p.shared.request_budget next.1.request_budget p.workers m.grown b.ended in
      record {
        spent = omega (arith, c, m.spent, b.spent);
        kept = omega (arith, c, d, m.kept, b.kept);
        ended =
            All-set _ p.workers i next.0 older
              (ground (arith, m.ended, All-get _ p.workers i w older at));
      }

  start-IsBalanced :
      (n connections depth : ℕ) (k : KeyspaceConfig) (l : Option RateLimiter)
      → IsBalanced n (start_pool fl hs connections depth k l (new_collector hs))
  unfolding start_pool
  start-IsBalanced n connections depth k l =
      let free =
        sum_by-zero (λ w. claims fl hs w.place) _
          (All-workers_from fl hs (λ w. claims fl hs w.place ≡ 0) (λ i. refl) connections depth
            0) in
      record {
        spent = omega (arith, free);
        kept = omega arith;
        ended = All-workers_from fl hs _ (λ i. omega arith) connections depth 0;
      }

  kept_balance :
      (env : Setup fl hs) (n : ℕ) → env.target_requests ≡ some n → IsKept fl hs env (IsBalanced n)
  kept_balance env n t i e p w next at r b =
      Moves-IsBalanced n i p w next at
        (resume_at-Moves fl hs env n w.place e w p.shared next t refl r) b

  -- In a phase with a number of requests, whatever the workers do in whatever order, no more results
  -- are recorded than this number.
  pub budget-bounds :
      (env : Setup fl hs) (n connections depth : ℕ) (k : KeyspaceConfig) (l : Option RateLimiter)
      (q : Pool fl hs)
      → env.target_requests ≡ some n
      → Steps fl hs env (start_pool fl hs connections depth k l (new_collector hs)) q
      → q.shared.collector.total_requests ≤ n
  budget-bounds env n connections depth k l q t s =
      let b =
        Steps-keep fl hs env (IsBalanced n) (kept_balance env n t) s
          (start-IsBalanced n connections depth k l) in
      omega (arith, b.spent)

  abbrev pub IsFinished : Worker fl hs → Type 0
  IsFinished w = w.place ≡ finished

  length-start :
      (connections depth : ℕ) (k : KeyspaceConfig) (l : Option RateLimiter)
      → length (start_pool fl hs connections depth k l (new_collector hs)).workers
        ≡ connections * depth
  unfolding start_pool
  length-start connections depth k l = length-workers_from fl hs connections depth 0

  exhausted :
      (ws : List (Worker fl hs)) (n b : ℕ)
      → 1 ≤ length ws
      → All IsFinished ws
      → All (λ w. ends fl hs w.place ≤ (if leb n b then 1 else 0)) ws
      → n ≤ b
  exhausted [] n b m all h = absurd (omega (arith, m))
  exhausted (w ∷ ws) n b m all h = ground (arith, rw (all.0) at h.0)

  -- In a phase with a number of requests, at least one connection and a positive depth, once every
  -- worker has left its loop, after any steps in any order, exactly that number of results is recorded.
  pub budget-exact :
      (env : Setup fl hs) (n connections depth : ℕ) (k : KeyspaceConfig) (l : Option RateLimiter)
      (q : Pool fl hs)
      → env.target_requests ≡ some n
      → 1 ≤ connections * depth
      → Steps fl hs env (start_pool fl hs connections depth k l (new_collector hs)) q
      → All IsFinished q.workers
      → q.shared.collector.total_requests ≡ n
  budget-exact env n connections depth k l q t some_worker s all =
      let b =
        Steps-keep fl hs env (IsBalanced n) (kept_balance env n t) s
          (start-IsBalanced n connections depth k l) in
      let claimed =
        sum_by-zero (λ w. claims fl hs w.place) q.workers
          (All-map q.workers (λ w h. rw h refl) all) in
      let dead =
        sum_by-zero (λ w. deaths fl hs w.place) q.workers
          (All-map q.workers (λ w h. rw h refl) all) in
      let m : 1 ≤ length q.workers =
        omega (arith, length-Steps fl hs env s, length-start connections depth k l, some_worker) in
      let e = exhausted q.workers n q.shared.request_budget m all b.ended in
      omega (arith, b.spent, b.kept, claimed, dead, e)
