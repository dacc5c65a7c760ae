-- ===== src/Client/Recording.antt =====
-- The in-memory driver (python/src/resp_bench/client/impl/recording_client.py). What an operation
-- meets is given with it: the random integer and number that it draws, and the readings of the clock.
pub mod Replay
pub mod Tests
use Prim.Native.Nat.{max}
use resp_bench.Prelude.{
  ℕ, ◌-◌, ◌/◌, String, Bool, true, false, not, if◌then◌else◌, Option, none, some, List, [], ◌∷◌,
  ◌++◌,
}
use resp_bench.Prelude.Dict
use resp_bench.Prelude.Dict.{Dict}
use resp_bench.Prelude.Int.{ℤ, pos, pos_part, ◌+ℤ◌, leb_ℤ, ltb_ℤ}
use resp_bench.Prelude.Results.{Exc, failure, Result, ok, ◌>>=◌, ◌>>◌}
use resp_bench.Json.{Fields, get_int, get_float, get_text_or}
use resp_bench.Config.Keyspace.{or_default}
use resp_bench.Floats.{Floats}
use resp_bench.Command.{Bytes, Value, text, bytes, nothing, TimedResult}

pub record RecordedOperation : Type 0 where
  pub command : String
  pub key : Option String
  pub value : Option Bytes
  pub is_success : Bool
  pub error_message : Option String

-- The value of `self._stored_data.get(key)`.
abbrev pub found : Option Bytes → Value
found none = nothing
found (some v) = bytes v

module _ (fl : Floats) where
  pub record RecordingClient : Type 0 where
    pub operations : List RecordedOperation
    pub stored_data : Dict Bytes
    pub connected : Bool
    pub operation_delay_micros : ℤ
    pub delay_variation_micros : ℤ
    pub error_rate : fl.Float
    pub error_message : String

  unfoldable pub new : RecordingClient
  new = record {
    operations = [];
    stored_data = Dict.empty;
    connected = false;
    operation_delay_micros = pos 0;
    delay_variation_micros = pos 0;
    error_rate = fl.of_int (pos 0);
    error_message = "Simulated error";
  }

  pub record Chance : Type 0 where
    pub variation : ℤ
    pub random : fl.Float
    pub started_nanos : ℕ
    pub ended_nanos : ℕ

  -- The sleep of `_simulate`, in microseconds.
  unfoldable pub calculate_delay_micros : RecordingClient → Chance → ℕ
  calculate_delay_micros c w =
      if leb_ℤ c.operation_delay_micros (pos 0)
      then 0
      else if ltb_ℤ (pos 0) c.delay_variation_micros
      then max 0 (pos_part (c.operation_delay_micros +ℤ w.variation))
      else pos_part c.operation_delay_micros

  -- `a >= b` is `b <= a`, and `a < b` is its negation the other way round: no float is NaN.
  unfoldable pub should_simulate_error : RecordingClient → Chance → Bool
  should_simulate_error c w =
      if fl.leb c.error_rate (fl.of_int (pos 0))
      then false
      else if fl.leb (fl.of_int (pos 1)) c.error_rate
      then true
      else not (fl.leb c.error_rate w.random)

  -- `_simulate`: the latency, and whether the operation succeeds.
  unfoldable pub simulate : RecordingClient → Chance → ℕ × Bool
  unfolding should_simulate_error
  simulate c w = ((w.ended_nanos - w.started_nanos) / 1000, not (should_simulate_error c w))

  abbrev answer : RecordingClient → ℕ → Bool → Value → TimedResult
  answer c latency true v = record { value = v; latency_micros = latency; error = none }
  answer c latency false v = record {
    value = nothing;
    latency_micros = latency;
    error = some (failure c.error_message);
  }

  abbrev logged : String → Option String → Option Bytes → Bool → RecordingClient → RecordingClient
  logged command k v done c = record c {
    operations =
        c.operations
        ++ (record {
          command = command;
          key = k;
          value = v;
          is_success = done;
          error_message = if done then none else some c.error_message;
        }
            ∷ []);
  }

  -- `connect`, of `specific_driver_config`; `str(None)` is "None".
  unfoldable pub connect : Fields fl.Float → RecordingClient → Result RecordingClient
  unfolding get_int get_float get_text_or
  connect cfg c = do
    delay ← get_int cfg "operation_delay_micros"
    variation ← get_int cfg "delay_variation_micros"
    rate ← get_float fl.of_int cfg "error_rate"
    message ← get_text_or cfg "error_message" "Simulated error"
    ok (
        logged "CONNECT" none none true (record c {
          connected = true;
          operation_delay_micros = or_default delay (pos 0);
          delay_variation_micros = or_default variation (pos 0);
          error_rate = or_default rate (fl.of_int (pos 0));
          error_message = or_default message "None";
        }))

  unfoldable pub ping : Chance → RecordingClient → TimedResult × RecordingClient
  unfolding simulate
  ping w c =
      let (latency, done) = simulate c w in
      (answer c latency done (text "PONG"), logged "PING" none none done c)

  unfoldable pub get : String → Chance → RecordingClient → TimedResult × RecordingClient
  unfolding simulate Dict.get
  get k w c =
      let (latency, done) = simulate c w in
      (answer c latency done (found (Dict.get c.stored_data k)), logged "GET" (some k) none done c)

  abbrev stored : String → Bytes → Bool → RecordingClient → RecordingClient
  stored k v true c = record c { stored_data = Dict.put c.stored_data k v }
  stored k v false c = c

  unfoldable pub set : String → Bytes → Chance → RecordingClient → TimedResult × RecordingClient
  unfolding simulate Dict.put
  set k v w c =
      let (latency, done) = simulate c w in
      (answer c latency done (text "OK"), logged "SET" (some k) (some v) done (stored k v done c))

  unfoldable pub close : RecordingClient → RecordingClient
  close c = logged "CLOSE" none none true (record c { connected = false })

  -- The operations that the engine calls, in turn; `close` has no answer.
  pub data Request : Type 0 where
    ping_request : Request
    get_request : String → Request
    set_request : String → Bytes → Request
    close_request : Request

  unfoldable pub serve : Request → Chance → RecordingClient → RecordingClient
  unfolding ping get set close
  serve ping_request w c = (ping w c).1
  serve (get_request k) w c = (get k w c).1
  serve (set_request k v) w c = (set k v w c).1
  serve close_request w c = close c

  unfoldable pub serve_all : List (Request × Chance) → RecordingClient → RecordingClient
  unfolding serve
  serve_all [] c = c
  serve_all ((r, w) ∷ rest) c = serve_all rest (serve r w c)
