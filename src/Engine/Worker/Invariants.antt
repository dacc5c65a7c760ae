-- ===== src/Engine/Worker/Invariants.antt =====
-- A property of the pool that each step of each worker keeps holds after any steps.
use resp_bench.Prelude.{
  ℕ, zero, suc, ◌+◌, ◌*◌, ◌≡◌, ◌∙◌, refl, some, get_elem?, set, length, length-set, length-append,
  length-replicate, replicate, All, All-append, All-replicate, arith, subst, some-injective,
  and_then-eq-some,
}
use resp_bench.Floats.{Floats}
use resp_bench.Metrics.{Histograms}
use resp_bench.Engine.Worker.{
  Setup, Worker, Shared, Event, resume, resume_at, Pool, step, Steps, done, then_step, new_worker,
  workers_from,
}

module _ (fl : Floats) (hs : Histograms) (env : Setup fl hs) (P : Pool fl hs → Type 0) where
  abbrev pub IsKept : Type 0
  IsKept =
      (i : ℕ) (e : Event fl hs) (p : Pool fl hs) (w : Worker fl hs)
      (next : Worker fl hs × Shared fl hs)
      → get_elem? p.workers i ≡ some w
      → resume_at fl hs env w.place e w p.shared ≡ some next
      → P p
      → P (record { workers = set p.workers i next.0; shared = next.1 })

  step-keeps :
      IsKept
      → (i : ℕ) (e : Event fl hs) (p q : Pool fl hs) → step fl hs env i e p ≡ some q
      → P p
      → P q
  unfolding step resume
  step-keeps keep i e p q h b =
      let (w, at, h1) = and_then-eq-some (get_elem? p.workers i) _ h in
      let (next, r, h2) = and_then-eq-some (resume fl hs env e w p.shared) _ h1 in
      subst P (some-injective h2) (keep i e p w next at r b)

  pub Steps-keep : IsKept → {p q : Pool fl hs} → Steps fl hs env p q → P p → P q
  Steps-keep keep done b = b
  Steps-keep keep (then_step i e s h) b = step-keeps keep i e _ _ h (Steps-keep keep s b)

-- What holds of each worker before its first step.
module _ (fl : Floats) (hs : Histograms) where
  pub All-workers_from :
      (P : Worker fl hs → Type 0)
      → ((i : ℕ) → P (new_worker fl hs i))
      → (connections depth first : ℕ) → All P (workers_from fl hs connections depth first)
  All-workers_from P h zero depth first = tt
  All-workers_from P h (suc connections) depth first =
      All-append P (replicate depth (new_worker fl hs first)) _ (All-replicate P depth _ (h first))
        (All-workers_from P h connections depth (first + 1))

  pub length-workers_from :
      (connections depth first : ℕ)
      → length (workers_from fl hs connections depth first) ≡ connections * depth
  length-workers_from zero depth first = omega arith
  length-workers_from (suc connections) depth first = omega (
    arith,
    length-append (replicate depth (new_worker fl hs first))
        (workers_from fl hs connections depth (first + 1)),
    length-replicate depth (new_worker fl hs first),
    length-workers_from connections depth (first + 1),
  )

  -- No step adds or removes a worker.
  pub length-Steps :
      (env : Setup fl hs) {p q : Pool fl hs}
      → Steps fl hs env p q
      → length q.workers ≡ length p.workers
  length-Steps env {p} s =
      Steps-keep fl hs env (λ r. length r.workers ≡ length p.workers)
        (λ i e r w next at h b. length-set r.workers i next.0 ∙ b) s refl
