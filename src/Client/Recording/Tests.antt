-- ===== src/Client/Recording/Tests.antt =====
-- A client without simulated errors, and the theorem at it.
use resp_bench.Prelude.{◌≡◌, refl, false, none, List, [], ◌∷◌}
use resp_bench.Prelude.Int.{pos}
use resp_bench.Floats.Sample.{whole}
use resp_bench.Json.{end}
use resp_bench.Prelude.Results.{ok}
use resp_bench.Prelude.{true}
use resp_bench.Command.{bytes}
use resp_bench.Client.Recording
use resp_bench.Client.Recording.{
  Chance, Request, get_request, set_request, ping_request, serve_all, should_simulate_error, found,
}
use resp_bench.Client.Recording.Replay.{replay, get-replay}

abbrev luck : Chance whole
luck = record { variation = pos 0; random = pos 0; started_nanos = 1000; ended_nanos = 9500 }

abbrev requests : List (Request whole × Chance whole)
requests =
    (set_request "a" (1 ∷ []), luck)
    ∷ (ping_request, luck)
    ∷ (set_request "a" (2 ∷ []), luck)
    ∷ (get_request "b", luck)
    ∷ []

abbrev connected : Recording.RecordingClient whole
connected = record (Recording.new whole) {
  operations =
      record {
        command = "CONNECT";
        key = none;
        value = none;
        is_success = true;
        error_message = none;
      }
      ∷ [];
  connected = true;
}

opened : Recording.connect whole end (Recording.new whole) ≡ ok connected
unfolding Recording.connect Recording.new
opened = refl

no_errors : should_simulate_error whole (serve_all whole requests connected) luck ≡ false
unfolding should_simulate_error serve_all Recording.new
no_errors = refl

last_value :
    (Recording.get whole "a" luck (serve_all whole requests connected)).0.value ≡ bytes (2 ∷ [])
unfolding Recording.get serve_all Recording.new
last_value = refl

get-replay_example :
    (Recording.get whole "a" luck (serve_all whole requests connected)).0.value
    ≡ found (replay "a" (serve_all whole requests connected).operations none)
get-replay_example = get-replay whole end connected requests luck "a" opened no_errors
