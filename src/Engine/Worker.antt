-- ===== src/Engine/Worker.antt =====
-- The worker coroutines of `BenchmarkEngine._run_workload`. A worker runs from one await to the next
-- without interruption, so one step of the model is what it does between two of them, and any worker
-- may take the next step. An await need not suspend: then the same worker's steps follow each other.
pub mod Invariants
pub mod Moves
pub mod Budget
pub mod Fairness
pub mod Yields
pub mod Sequence
pub mod Tests
use Prim.Native.Nat.{min}
use resp_bench.Prelude.{
  ℕ, zero, suc, ◌+◌, ◌-◌, ◌≡◌, Bool, true, false, leb, if◌then◌else◌, Option, none, some, and_then,
  List, [], ◌∷◌, String, get_elem?, set, replicate, ◌++◌,
}
use resp_bench.Prelude.Results.{Exc, is_exception}
use resp_bench.Floats.{Floats}
use resp_bench.Keys
use resp_bench.Prelude.Int.{ℤ, pos, ◌+ℤ◌}
use resp_bench.Config.Keyspace.{KeyspaceConfig, seed_value}
use resp_bench.Keys.{
  create_with_seed, Counter, Key, key, raises, spins, KeyGenerator, next_key, next_value,
}
use resp_bench.Limiter.{RateLimiter, Grant, acquire}
use resp_bench.Command.{Command, CommandResult, TimedResult, success, result_of}
use resp_bench.Command.Selector.{CommandSelector, select}
use resp_bench.Metrics.{Histograms, MetricsCollector, record_result}

abbrev pub yield_every_n_requests : ℕ
yield_every_n_requests = 64

abbrev pub consecutive_failure_backoff_after : ℕ
consecutive_failure_backoff_after = 8

-- in milliseconds
abbrev pub max_failure_backoff : ℕ
max_failure_backoff = 50

-- What `await command.execute(client, key)` comes to.
pub data Outcome : Type 0 where
  answered : TimedResult → Outcome
  raised : Exc → Outcome

module _ (fl : Floats) (hs : Histograms) where
  -- What the workers of a phase share and do not change. `target_requests` is None for a phase that
  -- has a duration, whose end is `end_time`; `fuel` is that of the key draws.
  pub record Setup : Type 0 where
    pub target_requests : Option ℕ
    pub end_time : ℕ
    pub selector : CommandSelector fl
    pub fuel : ℕ

  -- Where a worker stands: at the head of its loop, in the limiter, past it, in the request with this
  -- command and key, in a sleep of so many milliseconds, or at its end.
  pub data Place : Type 0 where
    at_top waiting admitted : Place
    in_flight : Command fl → String → Place
    asleep : ℕ → Place
    finished : Place
    died : Exc → Place

  pub record Worker : Type 0 where
    pub connection : ℕ
    pub place : Place
    pub since_yield : ℕ
    pub consecutive_failures : ℕ

  pub record Shared : Type 0 where
    pub request_budget : Counter
    pub rate_limiter : Option RateLimiter
    pub shared_counter : Counter
    pub generators : List KeyGenerator
    pub collector : MetricsCollector hs

  -- What happens to the worker: it reads the clock, draws a random number, its request ends, its sleep
  -- ends, or an exception is thrown into it where it awaits.
  pub data Event : Type 0 where
    clock : ℕ → Event
    random : fl.Float → Event
    reply : Outcome → Event
    wake : Event
    throw : Exc → Event

  abbrev pub Next : Type 0
  Next = Option (Worker × Shared)

  abbrev pub at : Place → Worker → Worker
  at p w = record w { place = p }

  abbrev pub or_finish : Bool → Worker → Worker
  or_finish ends w = if ends then at finished w else at waiting w

  abbrev pub checked : Option ℕ → Setup → ℕ → Worker → Shared → Worker × Shared
  checked none env now w s = (or_finish (leb env.end_time now) w, s)
  checked (some target) env now w s =
      let (claimed, budget) = next_value s.request_budget in
      (or_finish (leb target claimed) w, record s { request_budget = budget })

  -- The loop's condition, and the claim of a request that is part of it.
  unfoldable pub check_done : Setup → ℕ → Worker → Shared → Worker × Shared
  unfolding next_value
  check_done env now w s = checked env.target_requests env now w s

  abbrev pub granted : Option Grant → Worker → Shared → Worker × Shared
  granted none w s = (w, s)
  granted (some g) w s = (at admitted w, record s { rate_limiter = some g.limiter })

  abbrev pub limited : Option RateLimiter → ℕ → Worker → Shared → Worker × Shared
  limited none now w s = (at admitted w, s)
  limited (some l) now w s = granted (acquire l (now ∷ [])) w s

  -- One round of the limiter's loop.
  unfoldable pub pass_limiter : ℕ → Worker → Shared → Worker × Shared
  unfolding acquire
  pass_limiter now w s = limited s.rate_limiter now w s

  abbrev pub backoff : ℕ → ℕ
  backoff failures =
      if leb consecutive_failure_backoff_after failures
      then min (failures - consecutive_failure_backoff_after + 1) max_failure_backoff
      else 0

  -- The end of the loop's body.
  unfoldable pub after_request : Bool → Worker → Worker
  after_request succeeded w =
      if succeeded
      then (if leb yield_every_n_requests (w.since_yield + 1)
          then record w { place = asleep 0; since_yield = 0; consecutive_failures = 0 }
          else record w {
            place = at_top;
            since_yield = w.since_yield + 1;
            consecutive_failures = 0;
          })
      else record w {
        place = asleep (backoff (w.consecutive_failures + 1));
        since_yield = 0;
        consecutive_failures = w.consecutive_failures + 1;
      }

  abbrev pub recorded : CommandResult → Worker → Shared → Worker × Shared
  recorded r w s =
      (after_request r.is_success w, record s { collector = record_result hs r s.collector })

  -- The handler of the exceptions of a request.
  abbrev pub failed_result : String → CommandResult
  failed_result name = record { command_name = name; latency_micros = 0; is_success = false }

  abbrev pub failed_as : String → Worker → Shared → Worker × Shared
  failed_as name w s = recorded (failed_result name) w s

  -- From the choice of a command to the await of its request. None where the draw of the key has not
  -- ended within the fuel, or no generator is there.
  abbrev pub with_key : Command fl → Worker → Shared → Key × KeyGenerator × Counter → Next
  with_key c w s (key k, g, n) = some (
    at (in_flight c k) w,
    record s { generators = set s.generators w.connection g; shared_counter = n },
  )
  with_key c w s (raises e, g, n) = some (
      failed_as c.name w
        (record s { generators = set s.generators w.connection g; shared_counter = n }))
  with_key c w s (spins, g, n) = none

  abbrev pub with_generator : Setup → Command fl → Worker → Shared → Option KeyGenerator → Next
  with_generator env c w s none = none
  with_generator env c w s (some g) = with_key c w s (next_key env.fuel g s.shared_counter)

  abbrev pub with_command : Setup → Worker → Shared → Option (Command fl) → Next
  with_command env w s none = some (failed_as "UNKNOWN" w s)
  with_command env w s (some c) = with_generator env c w s (get_elem? s.generators w.connection)

  unfoldable pub send : Setup → fl.Float → Worker → Shared → Next
  unfolding after_request record_result select next_key
  send env r w s = with_command env w s (select fl env.selector r)

  unfoldable pub receive : Command fl → Outcome → Worker → Shared → Worker × Shared
  unfolding after_request record_result
  receive c (answered r) w s = recorded (result_of fl c r) w s
  receive c (raised e) w s = if is_exception e then failed_as c.name w s else (at (died e) w, s)

  abbrev pub resume_at : Setup → Place → Event → Worker → Shared → Next
  resume_at env at_top (clock now) w s = some (check_done env now w s)
  resume_at env waiting (clock now) w s = some (pass_limiter now w s)
  resume_at env admitted (random r) w s = send env r w s
  resume_at env (in_flight c k) (reply o) w s = some (receive c o w s)
  resume_at env (asleep d) wake w s = some (at at_top w, s)
  resume_at env at_top (throw e) w s = some (at (died e) w, s)
  resume_at env waiting (throw e) w s = some (at (died e) w, s)
  resume_at env (asleep d) (throw e) w s = some (at (died e) w, s)
  resume_at env _ _ w s = none

  -- What the worker does at the event; None where it does not await such an event.
  unfoldable pub resume : Setup → Event → Worker → Shared → Next
  unfolding check_done pass_limiter send receive
  resume env e w s = resume_at env w.place e w s

  pub record Pool : Type 0 where
    pub workers : List Worker
    pub shared : Shared

  -- One step of worker number `i`.
  unfoldable pub step : Setup → ℕ → Event → Pool → Option Pool
  unfolding resume
  step env i e p = and_then (get_elem? p.workers i) (λ w.
      and_then (resume env e w p.shared)
        (λ next. some (record { workers = set p.workers i next.0; shared = next.1 })))

  -- Some steps, by any workers.
  pub data Steps (env : Setup) : Pool → Pool → Type 0 where
    done : {p : Pool} → Steps env p p
    then_step :
        {p q r : Pool} (i : ℕ) (e : Event) → Steps env p q → step env i e q ≡ some r → Steps env p r

  -- `depth` workers for each of the connections from number `first`.
  abbrev pub new_worker : ℕ → Worker
  new_worker i = record {
    connection = i;
    place = at_top;
    since_yield = 0;
    consecutive_failures = 0;
  }

  abbrev pub workers_from : ℕ → ℕ → ℕ → List Worker
  workers_from zero depth first = []
  workers_from (suc connections) depth first =
      replicate depth (new_worker first) ++ workers_from connections depth (first + 1)

  -- `KeyGenerator.create_with_seed(keyspace, seed_base + idx)` for each connection
  abbrev pub generators_from : ℕ → KeyspaceConfig → ℤ → List KeyGenerator
  generators_from zero k seed = []
  generators_from (suc connections) k seed =
      create_with_seed k seed ∷ generators_from connections k (seed +ℤ pos 1)

  -- The workers of `_run_workload` before the first of them runs.
  unfoldable pub start_pool :
      ℕ → ℕ → KeyspaceConfig → Option RateLimiter → MetricsCollector hs → Pool
  unfolding create_with_seed seed_value
  start_pool connections depth k limiter c = record {
    workers = workers_from connections depth 0;
    shared = record {
      request_budget = 0;
      rate_limiter = limiter;
      shared_counter = 0;
      generators = generators_from connections k (seed_value k);
      collector = c;
    };
  }
