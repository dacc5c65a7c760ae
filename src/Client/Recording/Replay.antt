-- ===== src/Client/Recording/Replay.antt =====
-- The store against the log of the operations.
use resp_bench.Prelude.{
  String, ◌≡◌, ◌∙◌, refl, sym, ap, subst, Bool, true, false, if◌then◌else◌, Option, none, some,
  List, [], ◌∷◌, ◌++◌, str_eq, ◌&&◌,
}
use resp_bench.Prelude.Dict
use resp_bench.Prelude.Dict.{get-put}
use resp_bench.Floats.{Floats}
use resp_bench.Command.{Bytes}
use resp_bench.Prelude.Results.{ok, >>=-eq-ok, ok-injective}
use resp_bench.Json.{Fields, get_int, get_float, get_text_or}
use resp_bench.Client.Recording.{
  RecordedOperation, RecordingClient, Chance, new, get, should_simulate_error, Request,
  ping_request, get_request, set_request, close_request, serve, connect, serve_all, stored, found,
}

-- What the log says of a key: the value of the last operation that succeeded, has this key, and has a
-- value; before the first such operation, `before`.
abbrev pub writes : String → RecordedOperation → Option Bytes → Option Bytes
writes k o before = elim o.value [
  | none ↦ before
  | some v ↦ elim o.key [
    | none ↦ before
    | some j ↦ if o.is_success && str_eq j k then some v else before
  ]
]

abbrev pub replay : String → List RecordedOperation → Option Bytes → Option Bytes
replay k [] before = before
replay k (o ∷ os) before = replay k os (writes k o before)

replay-append :
    (k : String) (os : List RecordedOperation) (o : RecordedOperation) (before : Option Bytes)
    → replay k (os ++ (o ∷ [])) before ≡ writes k o (replay k os before)
replay-append k [] o before = refl
replay-append k (p ∷ os) o before = replay-append k os o (writes k p before)

module _ (fl : Floats) where
  abbrev pub Agrees : RecordingClient fl → Type 0
  Agrees c = (k : String) → Dict.get c.stored_data k ≡ replay k c.operations none

  stored-Agrees :
      (k j : String) (v : Bytes) (done : Bool) (c : RecordingClient fl) (message : Option String)
      → Agrees c
      → Dict.get (stored fl j v done c).stored_data k
        ≡ replay k
            ((stored fl j v done c).operations
              ++ (record {
                command = "SET";
                key = some j;
                value = some v;
                is_success = done;
                error_message = message;
              }
                  ∷ []))
            none
  stored-Agrees k j v true c message h =
      get-put c.stored_data j k v
      ∙ (ap (λ o. if str_eq j k then some v else o) (h k)
          ∙ sym (replay-append k c.operations _ none))
  stored-Agrees k j v false c message h = h k ∙ sym (replay-append k c.operations _ none)

  serve-Agrees :
      (r : Request fl) (w : Chance fl) (c : RecordingClient fl) → Agrees c → Agrees (serve fl r w c)
  unfolding serve
  serve-Agrees ping_request w c h k = h k ∙ sym (replay-append k c.operations _ none)
  serve-Agrees (get_request j) w c h k = h k ∙ sym (replay-append k c.operations _ none)
  serve-Agrees (set_request j v) w c h k = stored-Agrees k j v _ c _ h
  serve-Agrees close_request w c h k = h k ∙ sym (replay-append k c.operations _ none)

  serve_all-Agrees :
      (rs : List (Request fl × Chance fl)) (c : RecordingClient fl)
      → Agrees c
      → Agrees (serve_all fl rs c)
  unfolding serve_all
  serve_all-Agrees [] c h = h
  serve_all-Agrees ((r, w) ∷ rest) c h =
      serve_all-Agrees rest (serve fl r w c) (serve-Agrees r w c h)

  new-Agrees : Agrees (new fl)
  unfolding new Dict.get
  new-Agrees k = refl

  connect-Agrees :
      (cfg : Fields fl.Float) (c d : RecordingClient fl)
      → Agrees c
      → connect fl cfg c ≡ ok d
      → Agrees d
  unfolding connect
  connect-Agrees cfg c d h e =
      let (a, _, e1) = >>=-eq-ok (get_int cfg "operation_delay_micros") _ e in
      let (v, _, e2) = >>=-eq-ok (get_int cfg "delay_variation_micros") _ e1 in
      let (r, _, e3) = >>=-eq-ok (get_float fl.of_int cfg "error_rate") _ e2 in
      let (m, _, e4) = >>=-eq-ok (get_text_or cfg "error_message" "Simulated error") _ e3 in
      subst Agrees (ok-injective e4) (λ k. h k ∙ sym (replay-append k c.operations _ none))

  -- A client that has connected answers, after any requests of any outcome, a GET that does not simulate
  -- an error with the value of the last SET of its key that succeeded, as the client's log shows it, or
  -- with None where the log has no such SET.
  pub get-replay :
      (cfg : Fields fl.Float) (c : RecordingClient fl) (rs : List (Request fl × Chance fl))
      (w : Chance fl) (k : String)
      → connect fl cfg (new fl) ≡ ok c
      → should_simulate_error fl (serve_all fl rs c) w ≡ false
      → (get fl k w (serve_all fl rs c)).0.value
        ≡ found (replay k (serve_all fl rs c).operations none)
  unfolding get
  get-replay cfg c rs w k opened quiet =
      rw quiet
        (ap found (serve_all-Agrees rs c (connect-Agrees cfg (new fl) c new-Agrees opened) k))
