-- ===== src/Engine/Worker/Moves.antt =====
-- What one step of a worker does to the budget of a phase with a number of requests.
use Prim.Native.Nat.{min}
use resp_bench.Prelude.{
  ℕ, ◌+◌, ◌≤◌, ◌≡◌, refl, Bool, leb, if◌then◌else◌, String, Option, none, some, [], ◌∷◌, get_elem?,
  arith, subst, some-injective, Bool-cases, inl, inr,
}
use resp_bench.Prelude.Results.{is_exception}
use resp_bench.Floats.{Floats}
use resp_bench.Keys.{Key, key, raises, spins, KeyGenerator, Counter, next_key, next_value}
use resp_bench.Limiter.{RateLimiter, Grant, acquire}
use resp_bench.Command.{Command, CommandResult}
use resp_bench.Command.Selector.{select}
use resp_bench.Metrics.{Histograms}
use resp_bench.Metrics.Totals.{record_result-totals}
use resp_bench.Engine.Worker.{
  Outcome, answered, raised, Setup, Place, at_top, waiting, admitted, in_flight, asleep, finished,
  died, Worker, Shared, Event, clock, random, reply, wake, throw, check_done, pass_limiter,
  after_request, recorded, limited, granted, failed_result, with_generator, with_command, with_key,
  send, receive, resume_at,
}

module _ (fl : Floats) (hs : Histograms) where
  -- Whether a worker has claimed a request that is not recorded yet; whether it died; whether it ended.
  abbrev pub claims : Place fl hs → ℕ
  claims waiting = 1
  claims admitted = 1
  claims (in_flight c k) = 1
  claims _ = 0

  abbrev pub deaths : Place fl hs → ℕ
  deaths (died e) = 1
  deaths _ = 0

  abbrev pub ends : Place fl hs → ℕ
  ends finished = 1
  ends _ = 0

  abbrev pub requests : Shared fl hs → ℕ
  requests s = s.collector.total_requests

  -- What a step of one worker does to the budget `n`, for phases that have one.
  pub record Moves (n : ℕ) (w : Worker fl hs) (s : Shared fl hs)
      (next : Worker fl hs × Shared fl hs) : Type 0 where
    pub spent :
        requests next.1 + claims next.0.place + min s.request_budget n
        ≤ min next.1.request_budget n + requests s + claims w.place
    pub kept :
        min next.1.request_budget n + requests s + claims w.place + deaths w.place
        ≤ min s.request_budget n + requests next.1 + claims next.0.place + deaths next.0.place
    pub grown : s.request_budget ≤ next.1.request_budget
    pub ended : ends next.0.place ≤ ends w.place + (if leb n next.1.request_budget then 1 else 0)

  after_request-place :
      (b : Bool) (w : Worker fl hs)
      → (claims (after_request fl hs b w).place ≡ 0)
        × ((deaths (after_request fl hs b w).place ≡ 0)
            × (ends (after_request fl hs b w).place ≡ 0))
  unfolding after_request
  after_request-place b w = ground arith

  recorded-Moves :
      (n : ℕ) (r : CommandResult) (w : Worker fl hs) (s s0 : Shared fl hs)
      → s.request_budget ≡ s0.request_budget
      → requests s ≡ requests s0
      → claims w.place ≡ 1
      → deaths w.place ≡ 0
      → Moves n w s0 (recorded fl hs r w s)
  recorded-Moves n r w s s0 b q c d =
      let (a, (f, e)) = after_request-place r.is_success w in
      let t = record_result-totals hs s.collector r in
      record {
        spent = omega (arith, a, f, e, t.0, b, q, c, d);
        kept = omega (arith, a, f, e, t.0, b, q, c, d);
        grown = omega (arith, b);
        ended = omega (arith, e);
      }

  -- A step that leaves the budget and the number of results, of a worker that holds a claim before and
  -- after or at neither time, or that dies.
  still-Moves :
      (n : ℕ) (w w' : Worker fl hs) (s s' : Shared fl hs)
      → s'.request_budget ≡ s.request_budget
      → requests s' ≡ requests s
      → claims w'.place ≤ claims w.place
      → claims w.place + deaths w.place ≤ claims w'.place + deaths w'.place
      → ends w'.place ≤ ends w.place
      → Moves n w s (w', s')
  still-Moves n w w' s s' b q c d e = record {
    spent = omega (arith, b, q, c);
    kept = omega (arith, b, q, d);
    grown = omega (arith, b);
    ended = omega (arith, e);
  }

  check_done-Moves :
      (env : Setup fl hs) (n now : ℕ) (w : Worker fl hs) (s : Shared fl hs)
      → env.target_requests ≡ some n
      → claims w.place ≡ 0
      → deaths w.place ≡ 0
      → Moves n w s (check_done fl hs env now w s)
  unfolding check_done next_value
  check_done-Moves env n now w s t c d = elim (Bool-cases (leb n s.request_budget)) [
    | inl e ↦
        rw (t, e)
          (record {
            spent = ground (arith, e, c, d);
            kept = ground (arith, e, c, d);
            grown = omega arith;
            ended = ground (arith, e);
          })
    | inr e ↦
        rw (t, e)
          (record {
            spent = ground (arith, e, c, d);
            kept = ground (arith, e, c, d);
            grown = omega arith;
            ended = omega arith;
          })
  ]

  limited-Moves :
      (n now : ℕ) (o : Option RateLimiter) (w : Worker fl hs) (s : Shared fl hs)
      → w.place ≡ waiting
      → Moves n w s (limited fl hs o now w s)
  limited-Moves n now none w s p =
      still-Moves n w _ s _ refl refl (rw p (omega arith)) (rw p (omega arith)) (omega arith)
  limited-Moves n now (some l) w s p = granted-Moves n (acquire l (now ∷ [])) w s p
    where
      granted-Moves :
          (n : ℕ) (o : Option Grant) (w : Worker fl hs) (s : Shared fl hs)
          → w.place ≡ waiting
          → Moves n w s (granted fl hs o w s)
      granted-Moves n none w s p =
          still-Moves n w _ s _ refl refl (omega arith) (omega arith) (omega arith)
      granted-Moves n (some g) w s p =
          still-Moves n w _ s _ refl refl (rw p (omega arith)) (rw p (omega arith)) (omega arith)

  with_key-Moves :
      (n : ℕ) (c : Command fl) (w : Worker fl hs) (s : Shared fl hs)
      (d : Key × KeyGenerator × Counter) (next : Worker fl hs × Shared fl hs)
      → w.place ≡ admitted
      → with_key fl hs c w s d ≡ some next
      → Moves n w s next
  with_key-Moves n c w s (key k, g, m) next p h =
      subst (Moves n w s) (some-injective h)
        (still-Moves n w _ s _ refl refl (rw p (omega arith)) (rw p (omega arith)) (omega arith))
  with_key-Moves n c w s (raises e, g, m) next p h =
      subst (Moves n w s) (some-injective h)
        (recorded-Moves n (failed_result fl hs c.name) w _ s refl refl (rw p refl) (rw p refl))
  with_key-Moves n c w s (spins, g, m) next p h = absurd (cc h)

  with_command-Moves :
      (env : Setup fl hs) (n : ℕ) (w : Worker fl hs) (s : Shared fl hs) (o : Option (Command fl))
      (next : Worker fl hs × Shared fl hs)
      → w.place ≡ admitted
      → with_command fl hs env w s o ≡ some next
      → Moves n w s next
  with_command-Moves env n w s none next p h =
      subst (Moves n w s) (some-injective h)
        (recorded-Moves n (failed_result fl hs "UNKNOWN") w s s refl refl (rw p refl) (rw p refl))
  with_command-Moves env n w s (some c) next p h =
      with_generator-Moves (get_elem? s.generators w.connection) h
    where
      with_generator-Moves :
          (o : Option KeyGenerator)
          → with_generator fl hs env c w s o ≡ some next
          → Moves n w s next
      with_generator-Moves none h = absurd (cc h)
      with_generator-Moves (some g) h =
          with_key-Moves n c w s (next_key env.fuel g s.shared_counter) next p h

  receive-Moves :
      (n : ℕ) (c : Command fl) (k : String) (o : Outcome) (w : Worker fl hs) (s : Shared fl hs)
      → w.place ≡ in_flight c k
      → Moves n w s (receive fl hs c o w s)
  unfolding receive
  receive-Moves n c k (answered r) w s p =
      recorded-Moves n _ w s s refl refl (rw p refl) (rw p refl)
  receive-Moves n c k (raised e) w s p = elim (Bool-cases (is_exception e)) [
    | inl b ↦
        rw b (recorded-Moves n (failed_result fl hs c.name) w s s refl refl (rw p refl) (rw p refl))
    | inr b ↦
        rw b (still-Moves n w _ s _ refl refl (omega arith) (rw p (omega arith)) (omega arith))
  ]

  pass_limiter-Moves :
      (n now : ℕ) (w : Worker fl hs) (s : Shared fl hs)
      → w.place ≡ waiting
      → Moves n w s (pass_limiter fl hs now w s)
  unfolding pass_limiter
  pass_limiter-Moves n now w s p = limited-Moves n now s.rate_limiter w s p

  send-Moves :
      (env : Setup fl hs) (n : ℕ) (r : fl.Float) (w : Worker fl hs) (s : Shared fl hs)
      (next : Worker fl hs × Shared fl hs)
      → w.place ≡ admitted
      → send fl hs env r w s ≡ some next
      → Moves n w s next
  unfolding send
  send-Moves env n r w s next p h = with_command-Moves env n w s (select fl env.selector r) next p h

  pub resume_at-Moves :
      (env : Setup fl hs) (n : ℕ) (q : Place fl hs) (e : Event fl hs) (w : Worker fl hs)
      (s : Shared fl hs) (next : Worker fl hs × Shared fl hs)
      → env.target_requests ≡ some n
      → w.place ≡ q
      → resume_at fl hs env q e w s ≡ some next
      → Moves n w s next
  resume_at-Moves env n at_top (clock now) w s next t p h =
      subst (Moves n w s) (some-injective h)
        (check_done-Moves env n now w s t (rw p refl) (rw p refl))
  resume_at-Moves env n waiting (clock now) w s next t p h =
      subst (Moves n w s) (some-injective h) (pass_limiter-Moves n now w s p)
  resume_at-Moves env n admitted (random r) w s next t p h = send-Moves env n r w s next p h
  resume_at-Moves env n (in_flight c k) (reply o) w s next t p h =
      subst (Moves n w s) (some-injective h) (receive-Moves n c k o w s p)
  resume_at-Moves env n (asleep d) wake w s next t p h =
      subst (Moves n w s) (some-injective h)
        (still-Moves n w _ s _ refl refl (omega arith) (rw p (omega arith)) (omega arith))
  resume_at-Moves env n at_top (throw e) w s next t p h =
      subst (Moves n w s) (some-injective h)
        (still-Moves n w _ s _ refl refl (omega arith) (rw p (omega arith)) (omega arith))
  resume_at-Moves env n waiting (throw e) w s next t p h =
      subst (Moves n w s) (some-injective h)
        (still-Moves n w _ s _ refl refl (omega arith) (rw p (omega arith)) (omega arith))
  resume_at-Moves env n (asleep d) (throw e) w s next t p h =
      subst (Moves n w s) (some-injective h)
        (still-Moves n w _ s _ refl refl (omega arith) (rw p (omega arith)) (omega arith))
  resume_at-Moves env n _ _ w s next t p h = cc
