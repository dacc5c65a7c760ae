-- ===== src/Metrics/Writer/Readback.antt =====
-- What a reader of the row finds in it.
use resp_bench.Prelude.{
  ◌≤◌, ◌==◌, String, ◌≡◌, refl, ap, ◌∙◌, Option, none, some, List, [], ◌∷◌, str_eq, eq_iff,
  if◌then◌else◌, Bool-cases, Option-cases, inl, inr, arith,
}
use resp_bench.Prelude.Dict
use resp_bench.Prelude.Dict.{Dict, get-put, AllValues, AllValues-put, AllValues-get}
use resp_bench.Prelude.Int.{pos}
use resp_bench.Floats.{Floats}
use resp_bench.Json.{Json, fields_of, int, obj, get, object}
use resp_bench.Command.{CommandResult}
use resp_bench.Metrics.{
  Histograms, CommandMetrics, record_metrics, MetricsCollector, new_collector, record_result,
}
use resp_bench.Metrics.Totals.{
  named, failed_named, record_all, record_all-tally, requests_of, errors_of,
}
use resp_bench.Metrics.Writer.{Times, set_defaults, command_block, assign, build_command_metrics}

-- The value at the end of a path of keys.
module _ {F : Type 0} where
  abbrev pub at_path : List String → Json F → Option (Json F)
  at_path [] v = some v
  at_path (k ∷ ks) (obj o) = let rest = get o k in elim rest [ none ↦ none | some v ↦ at_path ks v ]
  at_path (k ∷ ks) _ = none

  pub get-fields_of : (d : Dict (Json F)) (k : String) → get (fields_of d) k ≡ Dict.get d k
  unfolding get Dict.get
  get-fields_of [] k = refl
  get-fields_of ((j, v) ∷ d) k = rw (get-fields_of d k) refl

  at_path-object :
      (d : Dict (Json F)) (k : String) (ks : List String) (o : Option (Json F))
      → Dict.get d k ≡ o
      → at_path (k ∷ ks) (object d) ≡ (elim o [ none ↦ none | some v ↦ at_path ks v ])
  at_path-object d k ks o h =
      ap (λ x. elim x [ none ↦ none | some v ↦ at_path ks v ]) (get-fields_of d k ∙ h)

-- No key stands twice.
module _ {ℓ} {V : Type ℓ} where
  abbrev pub Distinct : Dict V → Type ℓ
  Distinct [] = Unit
  Distinct ((k, v) ∷ d) = (Dict.get d k ≡ none) × Distinct d

  Distinct-put : (d : Dict V) (k : String) (v : V) → Distinct d → Distinct (Dict.put d k v)
  unfolding Dict.put Dict.get
  Distinct-put [] k v h = (refl, tt)
  Distinct-put ((j, u) ∷ d) k v h = elim (Bool-cases (str_eq j k)) [
    | inl e ↦ rw e h
    | inr e ↦
        rw e (ground (arith, get-put d k j v, eq_iff j k, eq_iff k j, h.0), Distinct-put d k v h.1)
  ]

abbrev pub or_else {ℓ} : {A : Type ℓ} → Option A → Option A → Option A
or_else (some a) o = some a
or_else none o = o

module _ (fl : Floats) (hs : Histograms) (ts : Times) where
  get-set_default :
      (d : Dict (Json fl.Float)) (j k : String) (u : Json fl.Float)
      → Dict.get (elim (Dict.get d j) [ none ↦ Dict.put d j u | some w ↦ d ]) k
        ≡ or_else (Dict.get d k) (if str_eq j k then some u else none)
  get-set_default d j k u =
      ground (
        arith,
        get-put d j k u,
        eq_iff j k,
        Option-cases (Dict.get d j),
        Option-cases (Dict.get d k),
      )

  -- For every key, the metadata has the value that was there, or else the first of the details for it.
  pub get-set_defaults :
      (d details : Dict (Json fl.Float)) (k : String)
      → Dict.get (set_defaults fl hs ts d details) k ≡ or_else (Dict.get d k) (Dict.get details k)
  unfolding set_defaults Dict.get
  get-set_defaults d [] k = elim (Option-cases (Dict.get d k)) [
    | inl e ↦ rw e refl
    | inr (v, e) ↦ rw e refl
  ]
  get-set_defaults d ((j, u) ∷ rest) k =
      let d' : Dict (Json fl.Float) = elim (Dict.get d j) [ none ↦ Dict.put d j u | some w ↦ d ] in
      ground
        (arith, get-set_defaults d' rest k, get-set_default d j k u, Option-cases (Dict.get d k))

  get-assign :
      (d : Dict (Json fl.Float)) (ms : Dict (CommandMetrics hs)) (k : String)
      → Distinct ms
      → Dict.get (assign fl hs ts d ms) k
        ≡ (elim (Dict.get ms k) [ none ↦ Dict.get d k | some m ↦ some (command_block fl hs ts m) ])
  unfolding Dict.get
  get-assign d [] k h = refl
  get-assign d ((j, m) ∷ ms) k h = ground (
    arith,
    get-assign (Dict.put d j (command_block fl hs ts m)) ms k h.1,
    get-put d j k (command_block fl hs ts m),
    eq_iff j k,
    h.0,
  )

  record_all-Distinct :
      (rs : List CommandResult) (c : MetricsCollector hs)
      → Distinct c.command_metrics
      → Distinct (record_all hs rs c).command_metrics
  unfolding record_all record_result
  record_all-Distinct [] c h = h
  record_all-Distinct (r ∷ rs) c h =
      record_all-Distinct rs (record_result hs r c)
        (Distinct-put c.command_metrics r.command_name _ h)

  abbrev Seen : CommandMetrics hs → Type 0
  Seen m = 1 ≤ m.requests

  record_all-Seen :
      (rs : List CommandResult) (c : MetricsCollector hs)
      → AllValues Seen c.command_metrics
      → AllValues Seen (record_all hs rs c).command_metrics
  unfolding record_all record_result record_metrics
  record_all-Seen [] c h = h
  record_all-Seen (r ∷ rs) c h =
      record_all-Seen rs (record_result hs r c)
        (AllValues-put Seen c.command_metrics r.command_name _ h (ground arith))

  at_command :
      (m : CommandMetrics hs)
      → (at_path ("requests" ∷ []) (command_block fl hs ts m) ≡ some (int (pos m.requests)))
        × (at_path ("errors" ∷ []) (command_block fl hs ts m) ≡ some (int (pos m.errors)))
  unfolding command_block get
  at_command m = (refl, refl)

  -- The metrics block of a row.
  abbrev pub metrics_block : List CommandResult → Json fl.Float
  metrics_block rs = object (build_command_metrics fl hs ts (record_all hs rs (new_collector hs)))

  -- In the metrics block of the row after any results, a reader finds under the name of a command
  -- how many results with this name there were and how many of these failed, and finds nothing for a
  -- name that no result had.
  pub metrics_block-tally :
      (rs : List CommandResult) (n : String)
      → (at_path (n ∷ "requests" ∷ []) (metrics_block rs)
          ≡ (if named n rs == 0 then none else some (int (pos (named n rs)))))
        × (at_path (n ∷ "errors" ∷ []) (metrics_block rs)
            ≡ (if named n rs == 0 then none else some (int (pos (failed_named n rs)))))
  unfolding build_command_metrics Dict.get
  metrics_block-tally rs n =
      let c = record_all hs rs (new_collector hs) in
      let a =
        get-assign Dict.empty c.command_metrics n (record_all-Distinct rs (new_collector hs) tt) in
      let seen = record_all-Seen rs (new_collector hs) tt in
      let (q, e) = record_all-tally hs rs n in
      elim (Option-cases (Dict.get c.command_metrics n)) [
        | inl g ↦
            let b : Dict.get (build_command_metrics fl hs ts c) n ≡ none = a ∙ (rw g refl) in
            let z : named n rs ≡ 0 =
              let u : requests_of hs c n ≡ 0 = rw g refl in omega (arith, q, u) in
            (
              at_path-object _ n ("requests" ∷ []) none b ∙ (rw z refl),
              at_path-object _ n ("errors" ∷ []) none b ∙ (rw z refl),
            )
        | inr (m, g) ↦
            let b : Dict.get (build_command_metrics fl hs ts c) n
                ≡ some (command_block fl hs ts m) =
              a ∙ (rw g refl) in
            let z : named n rs ≡ m.requests =
              let u : requests_of hs c n ≡ m.requests = rw g refl in omega (arith, q, u) in
            let some_seen = AllValues-get Seen c.command_metrics n m seen g in
            let w : failed_named n rs ≡ m.errors =
              let u : errors_of hs c n ≡ m.errors = rw g refl in omega (arith, e, u) in
            (
              at_path-object _ n ("requests" ∷ []) (some (command_block fl hs ts m)) b
                  ∙ ((at_command m).0 ∙ ground (arith, z, some_seen)),
              at_path-object _ n ("errors" ∷ []) (some (command_block fl hs ts m)) b
                  ∙ ((at_command m).1 ∙ ground (arith, z, w, some_seen)),
            )
      ]
