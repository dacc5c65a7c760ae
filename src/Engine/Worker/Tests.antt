-- ===== src/Engine/Worker/Tests.antt =====
-- A phase of one request on one connection, run to its end, and the theorems at it.
use resp_bench.Prelude.{
  ℕ, ◌≤◌, ◌≡◌, refl, Option, none, some, and_then, and_then-eq-some, some-injective, subst, List,
  [], ◌∷◌, length, All, arith,
}
use resp_bench.Prelude.Int.{pos}
use resp_bench.Floats.Sample.{whole}
use resp_bench.Config.Keyspace.{KeyspaceConfig, is_sequential_int}
use resp_bench.Command.{Command, TimedResult, get_command, text}
use resp_bench.Metrics.{new_collector}
use resp_bench.Metrics.Tests.{values}
use resp_bench.Engine.Worker.{
  answered, Setup, Worker, finished, Event, clock, random, reply, Pool, step, Steps, done,
  then_step, start_pool,
}
use resp_bench.Engine.Worker.Budget.{IsFinished, budget-bounds, budget-exact}
use resp_bench.Engine.Worker.Sequence.{sent, sent-sequential}
use resp_bench.Keys.{create_with_seed}
use resp_bench.Keys.Streams.{keys_before}

abbrev keyspace : KeyspaceConfig
keyspace = record {
  keys_count = some (pos 100);
  key_size_bytes = pos 10;
  key_prefix = "k:";
  generation_alg = "sequential_int";
  seed = none;
}

abbrev get_one : Command whole
get_one = record {
  kind = get_command;
  weight = pos 1;
  name = "GET";
  data_size_bytes = pos 256;
  value = [];
}

abbrev pub setup : Setup whole values
setup = record {
  target_requests = some 1;
  end_time = 0;
  selector = record { commands = get_one ∷ []; cumulative_weights = pos 1 ∷ [] };
  fuel = 0;
}

-- The last event stands first.
abbrev run : List (ℕ × Event whole values) → Pool whole values → Option (Pool whole values)
run [] p = some p
run ((i, e) ∷ es) p = and_then (run es p) (step whole values setup i e)

run-Steps :
    (es : List (ℕ × Event whole values)) (p q : Pool whole values)
    → run es p ≡ some q
    → Steps whole values setup p q
run-Steps [] p q h = subst (Steps whole values setup p) (some-injective h) done
run-Steps ((i, e) ∷ es) p q h =
    let (r, before, after) = and_then-eq-some (run es p) (step whole values setup i e) h in
    then_step i e (run-Steps es p r before) after

abbrev start : Pool whole values
start = start_pool whole values 1 1 keyspace none (new_collector values)

abbrev answer : TimedResult
answer = record { value = text "v"; latency_micros = 5; error = none }

abbrev events : List (ℕ × Event whole values)
events =
    (0, clock 4)
    ∷ (0, reply (answered answer))
    ∷ (0, random (pos 0))
    ∷ (0, clock 2)
    ∷ (0, clock 1)
    ∷ []

abbrev end : Pool whole values
end = elim (run events start) [ none ↦ start | some q ↦ q ]

reaches : run events start ≡ some end
unfolding step start_pool
reaches = refl

budget-bounds_example : end.shared.collector.total_requests ≤ 1
budget-bounds_example =
    budget-bounds whole values setup 1 1 1 keyspace none end refl
      (run-Steps events start end reaches)

All-IsFinished : All (IsFinished whole values) end.workers
unfolding step start_pool
All-IsFinished = (refl, tt)

budget-exact_example : end.shared.collector.total_requests ≡ 1
budget-exact_example =
    budget-exact whole values setup 1 1 1 keyspace none end refl (omega arith)
      (run-Steps events start end reaches) All-IsFinished

abbrev ended : Worker whole values
ended = record { connection = 0; place = finished; since_yield = 1; consecutive_failures = 0 }

sent-sequential_example :
    let s = run-Steps events start end reaches in
    sent whole values s
    ≡ keys_before (create_with_seed keyspace (pos 5)) (length (sent whole values s))
unfolding is_sequential_int create_with_seed
sent-sequential_example =
    sent-sequential whole values setup 1 1 keyspace none (pos 5) end
      (run-Steps events start end reaches) refl (omega arith)
