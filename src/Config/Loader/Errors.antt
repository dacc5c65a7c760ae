-- ===== src/Config/Loader/Errors.antt =====
-- What a rejected phase says.
use resp_bench.Prelude.{String, ◌≡◌, ◌≢◌, refl, Option, none, some, [], ◌∷◌}
use resp_bench.Prelude.Texts.{concat}
use resp_bench.Prelude.Results.{
  value_error, failure, ill_typed, cancelled, keyboard_interrupt, system_exit, Result, ok, err,
  ◌>>=◌,
}
use resp_bench.Floats.{Floats}
use resp_bench.Json.{
  Json, Fields, null, bool, int, real, text, arr, obj, get, get_text, need_dict, as_text,
}
use resp_bench.Config.Loader.{name_phase, shown_id, parse_phase, build_phase, check_phase}

abbrev pub message : String → String → String
message phase_id detail = concat ("invalid phase '" ∷ phase_id ∷ "': " ∷ detail ∷ [])

name_phase-names :
    {A : Type 0} (i m : String) (r : Result A)
    → name_phase i r ≡ err (value_error m)
    → (detail : String) × (m ≡ message i detail)
name_phase-names i m (ok a) h = absurd (cc h)
name_phase-names i m (err (value_error t)) h = (t, cc h)
name_phase-names i m (err (failure t)) h = absurd (cc h)
name_phase-names i m (err ill_typed) h = absurd (cc h)
name_phase-names i m (err cancelled) h = absurd (cc h)
name_phase-names i m (err keyboard_interrupt) h = absurd (cc h)
name_phase-names i m (err system_exit) h = absurd (cc h)

module _ {F : Type 0} where
  read_text :
      (v : Option (Json F)) (m : String)
      → elim v [ none ↦ ok none | some w ↦ as_text w ] ≢ err (value_error m)
  read_text none m e = cc e
  read_text (some null) m e = cc e
  read_text (some (text s)) m e = cc e
  read_text (some (bool b)) m e = cc e
  read_text (some (int n)) m e = cc e
  read_text (some (real x)) m e = cc e
  read_text (some (arr xs)) m e = cc e
  read_text (some (obj o)) m e = cc e

  get_text-value_error : (o : Fields F) (k m : String) → get_text o k ≢ err (value_error m)
  unfolding get_text
  get_text-value_error o k m e = read_text (get o k) m e

module _ (fl : Floats) where
  -- The document has the fields `o`, and `i` for its id.
  pub record HasId (d : Json fl.Float) (i : Option String) : Type 0 where
    pub fields : Fields fl.Float
    pub is_dict : need_dict d ≡ ok fields
    pub is_id : get_text fields "id" ≡ ok i

  -- A ValueError of `_parse_phase` names the phase: the document is a dict, and the message shows its
  -- id, or `<unnamed>` where it is missing or empty.
  pub parse_phase-names :
      (d : Json fl.Float) (m : String)
      → parse_phase fl d ≡ err (value_error m)
      → (i : Option String) × (detail : String) × HasId d i × (m ≡ message (shown_id i) detail)
  unfolding parse_phase
  parse_phase-names (obj o) m h = from_id (get_text o "id") refl h
    where
      from_id :
          (r : Result (Option String))
          → get_text o "id" ≡ r
          → (r >>= λ i.
              name_phase (shown_id i) (build_phase fl o >>= λ p. check_phase fl p >>= λ _. ok p))
            ≡ err (value_error m)
          → (i : Option String) × (detail : String) × HasId (obj o) i
            × (m ≡ message (shown_id i) detail)
      from_id (ok i) e h =
          let (detail, q) = name_phase-names (shown_id i) m _ h in
          (i, detail, record { fields = o; is_dict = refl; is_id = e }, q)
      from_id (err x) e h = absurd (get_text-value_error o "id" m (cc (e, h)))
  parse_phase-names null m h = absurd (cc h)
  parse_phase-names (bool b) m h = absurd (cc h)
  parse_phase-names (int n) m h = absurd (cc h)
  parse_phase-names (real x) m h = absurd (cc h)
  parse_phase-names (text s) m h = absurd (cc h)
  parse_phase-names (arr xs) m h = absurd (cc h)
