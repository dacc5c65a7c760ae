-- ===== src/Engine/Worker/Sequence.antt =====
-- The keys of a sequential phase, over all of its workers.
use resp_bench.Prelude.{
  ℕ, zero, suc, ◌+◌, ◌%◌, ◌<◌, ◌≡◌, refl, sym, ap, ◌∙◌, true, false, Option, none, some, List, [],
  ◌∷◌, ◌++◌, String, length, get_elem?, set, All, All-get, All-set, arith, subst, some-injective,
  and_then-eq-some, Bool-cases, inl, inr,
}
use resp_bench.Prelude.Int.{ℤ, pos, ◌+ℤ◌}
use resp_bench.Prelude.Results.{is_exception}
use resp_bench.Floats.{Floats}
use resp_bench.Config.Keyspace.{KeyspaceConfig, is_sequential_int, seed_value}
use resp_bench.Keys.{
  Key, key, raises, spins, KeyGenerator, Counter, create_with_seed, format_key, next_key,
  next_value,
}
use resp_bench.Keys.Streams.{
  next_key-sequential, keys_before, length-keys_before, Alike, finish-Alike,
}
use resp_bench.Limiter.{RateLimiter, Grant, acquire}
use resp_bench.Command.{Command}
use resp_bench.Command.Selector.{select}
use resp_bench.Metrics.{Histograms, new_collector}
use resp_bench.Engine.Worker.{
  Outcome, answered, raised, Setup, Place, at_top, waiting, admitted, in_flight, asleep, Worker,
  Shared, Event, clock, random, reply, wake, throw, checked, check_done, pass_limiter,
  after_request, limited, granted, with_generator, with_command, with_key, send, receive, resume,
  resume_at, Pool, step, Steps, done, then_step, start_pool, generators_from,
}
use resp_bench.Engine.Worker.Yields.{get_elem?-set}

module _ (fl : Floats) (hs : Histograms) where
  All-generators_from :
      (k : KeyspaceConfig) (g : KeyGenerator) (connections : ℕ) (seed : ℤ)
      → ((s : ℤ) → Alike g (create_with_seed k s))
      → All (Alike g) (generators_from fl hs connections k seed)
  All-generators_from k g zero seed a = tt
  All-generators_from k g (suc connections) seed a =
      (a seed, All-generators_from k g connections (seed +ℤ pos 1) a)

  abbrev pub sent_by : Event fl hs → Place fl hs → List String
  sent_by (random r) (in_flight c k) = k ∷ []
  sent_by e q = []

  abbrev pub sent_at : Event fl hs → Option (Worker fl hs) → List String
  sent_at e none = []
  sent_at e (some w) = sent_by e w.place

  -- The keys of the requests that the workers sent over some steps, the last one first.
  abbrev pub sent : {env : Setup fl hs} {p q : Pool fl hs} → Steps fl hs env p q → List String
  sent done = []
  sent (then_step {r = r} i e s h) = sent_at e (get_elem? r.workers i) ++ sent s

  module _ (g : KeyGenerator) (some_keys : 0 < g.keys_count) where
    -- The keys so far are the first ones of the sequence, as many as the counter says.
    record Follows (keys : List String) (s : Shared fl hs) : Type 0 where
      alike : All (Alike g) s.generators
      first : keys ≡ keys_before g s.shared_counter

    abbrev Goes : List String → Event fl hs → Worker fl hs × Shared fl hs → Type 0
    Goes keys e next = Follows (sent_by e next.0.place ++ keys) next.1

    same-Follows :
        (keys : List String) (s t : Shared fl hs)
        → s.generators ≡ t.generators
        → s.shared_counter ≡ t.shared_counter
        → Follows keys s
        → Follows keys t
    same-Follows keys s t e f h = record {
      alike = subst (All (Alike g)) e h.alike;
      first = h.first ∙ ap (keys_before g) f;
    }

    check_done-Goes :
        (env : Setup fl hs) (now : ℕ) (keys : List String) (w : Worker fl hs) (s : Shared fl hs)
        → Follows keys s
        → Goes keys (clock now) (check_done fl hs env now w s)
    unfolding check_done next_value
    check_done-Goes env now keys w s h = go env.target_requests
      where
        go : (o : Option ℕ) → Goes keys (clock now) (checked fl hs o env now w s)
        go none = h
        go (some target) = record { alike = h.alike; first = h.first }

    pass_limiter-Goes :
        (now : ℕ) (keys : List String) (w : Worker fl hs) (s : Shared fl hs)
        → Follows keys s
        → Goes keys (clock now) (pass_limiter fl hs now w s)
    unfolding pass_limiter
    pass_limiter-Goes now keys w s h = go s.rate_limiter
      where
        go : (o : Option RateLimiter) → Goes keys (clock now) (limited fl hs o now w s)
        go none = h
        go (some l) = go_on (acquire l (now ∷ []))
          where
            go_on : (o : Option Grant) → Goes keys (clock now) (granted fl hs o w s)
            go_on none = h
            go_on (some a) = record { alike = h.alike; first = h.first }

    -- A failure before the request is sent sends no key.
    failed-Goes :
        (r : fl.Float) (keys : List String) (w : Worker fl hs) (s t : Shared fl hs)
        → t.generators ≡ s.generators
        → t.shared_counter ≡ s.shared_counter
        → Follows keys s
        → Goes keys (random r) (after_request fl hs false w, t)
    unfolding after_request
    failed-Goes r keys w s t e f h = same-Follows keys s t (sym e) (sym f) h

    with_key-Goes :
        (r : fl.Float) (keys : List String) (c : Command fl) (w : Worker fl hs) (s : Shared fl hs)
        (d : Key × KeyGenerator × Counter) (h : KeyGenerator) (next : Worker fl hs × Shared fl hs)
        → d ≡ (key (format_key g (s.shared_counter % g.keys_count)), h, s.shared_counter + 1)
        → with_key fl hs c w s d ≡ some next
        → Alike g h
        → Follows keys s
        → Goes keys (random r) next
    with_key-Goes r keys c w s (key k, h, m) i next q e a f =
        subst (Goes keys (random r)) (some-injective e) (record {
          alike =
              All-set (Alike g) s.generators w.connection h f.alike
                (subst (Alike g) (sym (ap (λ d. d.1) q)) a);
          first = sent_first (ap (λ d. d.0) q) (ap (λ d. d.2) q);
        })
      where
        sent_first :
            key k ≡ key (format_key g (s.shared_counter % g.keys_count))
            → m ≡ s.shared_counter + 1
            → k ∷ keys ≡ keys_before g m
        sent_first p n =
            let here : k ≡ format_key g (s.shared_counter % g.keys_count) = cc p in
            let count : m ≡ suc s.shared_counter = omega (arith, n) in
            rw (count, here, f.first) refl
    with_key-Goes r keys c w s (raises x, h, m) i next q e a f = absurd (cc (ap (λ d. d.0) q))
    with_key-Goes r keys c w s (spins, h, m) i next q e a f = absurd (cc e)

    send-Goes :
        (env : Setup fl hs) (r : fl.Float) (keys : List String) (w : Worker fl hs)
        (s : Shared fl hs) (next : Worker fl hs × Shared fl hs)
        → send fl hs env r w s ≡ some next
        → Follows keys s
        → Goes keys (random r) next
    unfolding send
    send-Goes env r keys w s next e f = go (select fl env.selector r) e
      where
        go_on :
            (c : Command fl) (o : Option KeyGenerator)
            → get_elem? s.generators w.connection ≡ o
            → with_generator fl hs env c w s o ≡ some next
            → Goes keys (random r) next
        go_on c none at e = absurd (cc e)
        go_on c (some h) at e =
            let a : Alike g h = All-get (Alike g) s.generators w.connection h f.alike at in
            with_key-Goes r keys c w s (next_key env.fuel h s.shared_counter) h next
              (next_key-sequential env.fuel h s.shared_counter a.mode
                ∙ ap (λ k. (k, h, s.shared_counter + 1))
                    (finish-Alike g h s.shared_counter some_keys a))
              e a f

        go :
            (o : Option (Command fl))
            → with_command fl hs env w s o ≡ some next
            → Goes keys (random r) next
        go none e =
            subst (Goes keys (random r)) (some-injective e) (failed-Goes r keys w s _ refl refl f)
        go (some c) e = go_on c (get_elem? s.generators w.connection) refl e

    receive-Goes :
        (c : Command fl) (o : Outcome) (keys : List String) (w : Worker fl hs) (s : Shared fl hs)
        → Follows keys s
        → Goes keys (reply o) (receive fl hs c o w s)
    unfolding receive
    receive-Goes c (answered r) keys w s h = record { alike = h.alike; first = h.first }
    receive-Goes c (raised e) keys w s h = elim (Bool-cases (is_exception e)) [
      | inl b ↦ rw b (record { alike = h.alike; first = h.first })
      | inr b ↦ rw b h
    ]

    resume_at-Goes :
        (env : Setup fl hs) (q : Place fl hs) (e : Event fl hs) (keys : List String)
        (w : Worker fl hs) (s : Shared fl hs) (next : Worker fl hs × Shared fl hs)
        → resume_at fl hs env q e w s ≡ some next
        → Follows keys s
        → Goes keys e next
    resume_at-Goes env at_top (clock now) keys w s next e h =
        subst (Goes keys (clock now)) (some-injective e) (check_done-Goes env now keys w s h)
    resume_at-Goes env waiting (clock now) keys w s next e h =
        subst (Goes keys (clock now)) (some-injective e) (pass_limiter-Goes now keys w s h)
    resume_at-Goes env admitted (random r) keys w s next e h = send-Goes env r keys w s next e h
    resume_at-Goes env (in_flight c k) (reply o) keys w s next e h =
        subst (Goes keys (reply o)) (some-injective e) (receive-Goes c o keys w s h)
    resume_at-Goes env (asleep d) wake keys w s next e h =
        subst (Goes keys wake) (some-injective e) h
    resume_at-Goes env at_top (throw x) keys w s next e h =
        subst (Goes keys (throw x)) (some-injective e) h
    resume_at-Goes env waiting (throw x) keys w s next e h =
        subst (Goes keys (throw x)) (some-injective e) h
    resume_at-Goes env (asleep d) (throw x) keys w s next e h =
        subst (Goes keys (throw x)) (some-injective e) h
    resume_at-Goes env _ _ keys w s next e h = cc

    step-Follows :
        (env : Setup fl hs) (i : ℕ) (e : Event fl hs) (keys : List String) (p q : Pool fl hs)
        → step fl hs env i e p ≡ some q
        → Follows keys p.shared
        → Follows (sent_at e (get_elem? q.workers i) ++ keys) q.shared
    unfolding step resume
    step-Follows env i e keys p q h f =
        let (w, at, h1) = and_then-eq-some (get_elem? p.workers i) _ h in
        let (next, r, h2) = and_then-eq-some (resume fl hs env e w p.shared) _ h1 in
        let here : get_elem? (set p.workers i next.0) i ≡ some next.0 =
          get_elem?-set p.workers i i w next.0 at ∙ ground arith in
        subst (λ z. Follows (sent_at e (get_elem? z.workers i) ++ keys) z.shared)
          (some-injective h2) (rw here (resume_at-Goes env w.place e keys w p.shared next r f))

    Steps-Follows :
        {env : Setup fl hs} {p q : Pool fl hs} (s : Steps fl hs env p q)
        → Follows [] p.shared
        → Follows (sent s) q.shared
    Steps-Follows done f = f
    Steps-Follows {env} (then_step {q = q} {r = r} i e s h) f =
        step-Follows env i e (sent s) q r h (Steps-Follows s f)

  -- In a sequential phase of some keys, the requests that all workers together have sent, whichever of
  -- them sent each, have the keys of 0, 1, 2, … modulo the number of keys, in this order: the list of
  -- the keys that were sent has the last one first.
  pub sent-sequential :
      (env : Setup fl hs) (connections depth : ℕ) (k : KeyspaceConfig) (l : Option RateLimiter)
      (seed : ℤ) (q : Pool fl hs)
      (s : Steps fl hs env (start_pool fl hs connections depth k l (new_collector hs)) q)
      → is_sequential_int k ≡ true
      → 0 < (create_with_seed k seed).keys_count
      → sent s ≡ keys_before (create_with_seed k seed) (length (sent s))
  unfolding start_pool
  sent-sequential env connections depth k l seed q s mode some_keys =
      let g = create_with_seed k seed in
      let f = Steps-Follows g some_keys s (record {
        alike = All-generators_from k g connections (seed_value k) (λ t.
            unfold create_with_seed in
            record { prefix = refl; size = refl; number = refl; mode = mode });
        first = refl;
      }) in
      let count : length (sent s) ≡ q.shared.shared_counter =
        ap length f.first ∙ length-keys_before g q.shared.shared_counter in
      f.first ∙ ap (keys_before g) (sym count)
