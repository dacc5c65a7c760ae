-- ===== src/Engine/Worker/Fairness.antt =====
-- The count of requests that a worker keeps, and how long it sleeps.
use resp_bench.Prelude.{
  ℕ, ◌+◌, ◌≤◌, ◌<◌, ◌≡◌, refl, Bool, true, false, leb, Option, none, some, [], ◌∷◌, get_elem?, All,
  All-set, All-get, arith, subst, some-injective, Bool-cases, inl, inr,
}
use resp_bench.Prelude.Results.{is_exception}
use resp_bench.Floats.{Floats}
use resp_bench.Config.Keyspace.{KeyspaceConfig}
use resp_bench.Keys.{Key, key, raises, spins, KeyGenerator, Counter, next_key, next_value}
use resp_bench.Limiter.{RateLimiter, Grant, acquire}
use resp_bench.Command.{Command}
use resp_bench.Command.Selector.{select}
use resp_bench.Metrics.{Histograms, new_collector}
use resp_bench.Engine.Worker.{
  Outcome, answered, raised, Setup, Place, at_top, waiting, admitted, in_flight, asleep, finished,
  died, Worker, Shared, Event, clock, random, reply, wake, throw, or_finish, checked, check_done,
  pass_limiter, after_request, limited, granted, with_generator, with_command, with_key, send,
  receive, resume_at, Pool, Steps, start_pool, yield_every_n_requests, max_failure_backoff,
  consecutive_failure_backoff_after,
}
use resp_bench.Engine.Worker.Invariants.{IsKept, Steps-keep, All-workers_from}

module _ (fl : Floats) (hs : Histograms) where
  -- The milliseconds of a sleep.
  abbrev pub nap : Place fl hs → ℕ
  nap (asleep d) = d
  nap _ = 0

  -- The count is less than 64; a sleep lasts no more than 50 ms,
  -- and any at all only after 8 failures in a row.
  pub record IsFair (w : Worker fl hs) : Type 0 where
    pub yields : w.since_yield < yield_every_n_requests
    pub short : nap w.place ≤ max_failure_backoff
    pub earned : 1 ≤ nap w.place → consecutive_failure_backoff_after ≤ w.consecutive_failures

  after_request-IsFair : (b : Bool) (w : Worker fl hs) → IsFair w → IsFair (after_request fl hs b w)
  unfolding after_request
  after_request-IsFair b w h = elim (Bool-cases b) [
    | inr e ↦
        rw e
          (record { yields = omega arith; short = ground arith; earned = λ n. ground (arith, n) })
    | inl e ↦ elim (Bool-cases (leb yield_every_n_requests (w.since_yield + 1))) [
      | inl f ↦
          rw (e, f)
            (record {
              yields = omega arith;
              short = omega arith;
              earned = λ n. absurd (omega (arith, n));
            })
      | inr f ↦
          rw (e, f)
            (record {
              yields = ground (arith, f);
              short = omega arith;
              earned = λ n. absurd (omega (arith, n));
            })
    ]
  ]

  at-IsFair :
      (w : Worker fl hs) (q : Place fl hs) → nap q ≡ 0 → IsFair w → IsFair (record w { place = q })
  at-IsFair w q z h = record {
    yields = h.yields;
    short = omega (arith, z);
    earned = λ n. absurd (omega (arith, n, z));
  }

  check_done-IsFair :
      (env : Setup fl hs) (now : ℕ) (w : Worker fl hs) (s : Shared fl hs)
      → IsFair w
      → IsFair (check_done fl hs env now w s).0
  unfolding check_done next_value
  check_done-IsFair env now w s h = go env.target_requests
    where
      over : (b : Bool) → IsFair (or_finish fl hs b w)
      over true = at-IsFair w finished refl h
      over false = at-IsFair w waiting refl h

      go : (o : Option ℕ) → IsFair (checked fl hs o env now w s).0
      go none = over (leb env.end_time now)
      go (some target) = over (leb target (next_value s.request_budget).0)

  pass_limiter-IsFair :
      (now : ℕ) (w : Worker fl hs) (s : Shared fl hs)
      → IsFair w
      → IsFair (pass_limiter fl hs now w s).0
  unfolding pass_limiter
  pass_limiter-IsFair now w s h = go s.rate_limiter
    where
      go : (o : Option RateLimiter) → IsFair (limited fl hs o now w s).0
      go none = at-IsFair w admitted refl h
      go (some l) = go_on (acquire l (now ∷ []))
        where
          go_on : (o : Option Grant) → IsFair (granted fl hs o w s).0
          go_on none = h
          go_on (some g) = at-IsFair w admitted refl h

  with_key-IsFair :
      (c : Command fl) (w : Worker fl hs) (s : Shared fl hs) (d : Key × KeyGenerator × Counter)
      (next : Worker fl hs × Shared fl hs)
      → with_key fl hs c w s d ≡ some next
      → IsFair w
      → IsFair next.0
  with_key-IsFair c w s (key k, g, m) next e h =
      subst (λ n. IsFair n.0) (some-injective e) (at-IsFair w (in_flight c k) refl h)
  with_key-IsFair c w s (raises x, g, m) next e h =
      subst (λ n. IsFair n.0) (some-injective e) (after_request-IsFair false w h)
  with_key-IsFair c w s (spins, g, m) next e h = absurd (cc e)

  send-IsFair :
      (env : Setup fl hs) (r : fl.Float) (w : Worker fl hs) (s : Shared fl hs)
      (next : Worker fl hs × Shared fl hs)
      → send fl hs env r w s ≡ some next
      → IsFair w
      → IsFair next.0
  unfolding send
  send-IsFair env r w s next e h = go (select fl env.selector r) e
    where
      go_on :
          (c : Command fl) (o : Option KeyGenerator)
          → with_generator fl hs env c w s o ≡ some next
          → IsFair next.0
      go_on c none e = absurd (cc e)
      go_on c (some g) e = with_key-IsFair c w s (next_key env.fuel g s.shared_counter) next e h

      go : (o : Option (Command fl)) → with_command fl hs env w s o ≡ some next → IsFair next.0
      go none e = subst (λ n. IsFair n.0) (some-injective e) (after_request-IsFair false w h)
      go (some c) e = go_on c (get_elem? s.generators w.connection) e

  receive-IsFair :
      (c : Command fl) (o : Outcome) (w : Worker fl hs) (s : Shared fl hs)
      → IsFair w
      → IsFair (receive fl hs c o w s).0
  unfolding receive
  receive-IsFair c (answered r) w s h = after_request-IsFair _ w h
  receive-IsFair c (raised e) w s h = elim (Bool-cases (is_exception e)) [
    | inl b ↦ rw b (after_request-IsFair false w h)
    | inr b ↦ rw b (at-IsFair w (died e) refl h)
  ]

  resume_at-IsFair :
      (env : Setup fl hs) (q : Place fl hs) (e : Event fl hs) (w : Worker fl hs) (s : Shared fl hs)
      (next : Worker fl hs × Shared fl hs)
      → resume_at fl hs env q e w s ≡ some next
      → IsFair w
      → IsFair next.0
  resume_at-IsFair env at_top (clock now) w s next e h =
      subst (λ n. IsFair n.0) (some-injective e) (check_done-IsFair env now w s h)
  resume_at-IsFair env waiting (clock now) w s next e h =
      subst (λ n. IsFair n.0) (some-injective e) (pass_limiter-IsFair now w s h)
  resume_at-IsFair env admitted (random r) w s next e h = send-IsFair env r w s next e h
  resume_at-IsFair env (in_flight c k) (reply o) w s next e h =
      subst (λ n. IsFair n.0) (some-injective e) (receive-IsFair c o w s h)
  resume_at-IsFair env (asleep d) wake w s next e h =
      subst (λ n. IsFair n.0) (some-injective e) (at-IsFair w at_top refl h)
  resume_at-IsFair env at_top (throw x) w s next e h =
      subst (λ n. IsFair n.0) (some-injective e) (at-IsFair w (died x) refl h)
  resume_at-IsFair env waiting (throw x) w s next e h =
      subst (λ n. IsFair n.0) (some-injective e) (at-IsFair w (died x) refl h)
  resume_at-IsFair env (asleep d) (throw x) w s next e h =
      subst (λ n. IsFair n.0) (some-injective e) (at-IsFair w (died x) refl h)
  resume_at-IsFair env _ _ w s next e h = cc

  kept-IsFair : (env : Setup fl hs) → IsKept fl hs env (λ p. All IsFair p.workers)
  kept-IsFair env i e p w next at r b =
      All-set IsFair p.workers i next.0 b
        (resume_at-IsFair env w.place e w p.shared next r (All-get IsFair p.workers i w b at))

  start-IsFair :
      (connections depth : ℕ) (k : KeyspaceConfig) (l : Option RateLimiter)
      → All IsFair (start_pool fl hs connections depth k l (new_collector hs)).workers
  unfolding start_pool
  start-IsFair connections depth k l =
      All-workers_from fl hs IsFair
        (λ i. record {
          yields = omega arith;
          short = omega arith;
          earned = λ n. absurd (omega (arith, n));
        })
        connections depth 0

  -- Whatever the workers of a phase do, the count that each of them keeps is less than 64, it never
  -- sleeps more than 50 ms, and sleeps for some time only after 8 failures or
  -- more in a row.
  pub workers-IsFair :
      (env : Setup fl hs) (connections depth : ℕ) (k : KeyspaceConfig) (l : Option RateLimiter)
      (q : Pool fl hs)
      → Steps fl hs env (start_pool fl hs connections depth k l (new_collector hs)) q
      → All IsFair q.workers
  workers-IsFair env connections depth k l q s =
      Steps-keep fl hs env (λ p. All IsFair p.workers) (kept-IsFair env) s
        (start-IsFair connections depth k l)
