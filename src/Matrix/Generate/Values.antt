-- ===== src/Matrix/Generate/Values.antt =====
-- What stands in the generated files.
use resp_bench.Prelude.{
  ◌≡◌, ◌≢◌, refl, sym, ap, subst, ◌∙◌, Option, none, some, String, str_eq, eq_iff, if◌then◌else◌,
  arith,
}
use resp_bench.Prelude.Results.{ok, >>=-eq-ok, ok-injective}
use resp_bench.Json.{
  Json, Items, Fields, null, bool, int, real, text, arr, obj, nil, cons, end, field, get, put,
  need_dict,
}
use resp_bench.Matrix.{Host}
use resp_bench.Matrix.Generate.{load_config, connect_phases, with_phases, generate_workload}

module _ {F : Type 0} where
  get-put :
      (o : Fields F) (k j : String) (v : Json F)
      → get (put o k v) j ≡ (if str_eq k j then some v else get o j)
  unfolding get put
  get-put end k j v = refl
  get-put (field i w rest) k j v =
      ground (arith, eq_iff k j, eq_iff i k, eq_iff i j, get-put rest k j v)

  pub get-put_other :
      (o : Fields F) (k j : String) (v : Json F) → k ≢ j → get (put o k v) j ≡ get o j
  get-put_other o k j v n = ground (arith, eq_iff k j, get-put o k j v)

  -- A phase of the template, and the phase that is made of it.
  abbrev pub Reconnected : Json F → Fields F → Fields F → Type 0
  Reconnected connections old new =
      (get new "connections" ≡ some connections)
      × ((k : String) → "connections" ≢ k → get new k ≡ get old k)

  abbrev pub AllReconnected : Json F → Items F → Items F → Type 0
  AllReconnected connections nil nil = Unit
  AllReconnected connections (cons (obj p) ps) (cons (obj q) qs) =
      Reconnected connections p q × AllReconnected connections ps qs
  AllReconnected connections _ _ = ⊥

  connect_phases-AllReconnected :
      (connections : Json F) (ps qs : Items F)
      → connect_phases connections ps ≡ ok qs
      → AllReconnected connections ps qs
  connect_phases-AllReconnected connections nil nil h = tt
  connect_phases-AllReconnected connections nil (cons q qs) h = absurd (cc h)
  connect_phases-AllReconnected connections (cons (obj p) ps) qs h =
      let (changed, made, same) = >>=-eq-ok (connect_phases connections ps) _ h in
      subst (AllReconnected connections (cons (obj p) ps)) (ok-injective same) (
        (
          get-put p "connections" "connections" connections,
          λ k n. get-put_other p "connections" k connections n,
        ),
        connect_phases-AllReconnected connections ps changed made,
      )
  connect_phases-AllReconnected connections (cons null ps) qs h = absurd (cc h)
  connect_phases-AllReconnected connections (cons (bool b) ps) qs h = absurd (cc h)
  connect_phases-AllReconnected connections (cons (int n) ps) qs h = absurd (cc h)
  connect_phases-AllReconnected connections (cons (real x) ps) qs h = absurd (cc h)
  connect_phases-AllReconnected connections (cons (text s) ps) qs h = absurd (cc h)
  connect_phases-AllReconnected connections (cons (arr vs) ps) qs h = absurd (cc h)

  need_dict-obj : (v : Json F) (o : Fields F) → need_dict v ≡ ok o → v ≡ obj o
  need_dict-obj (obj o) p h = cc h
  need_dict-obj null p h = absurd (cc h)
  need_dict-obj (bool b) p h = absurd (cc h)
  need_dict-obj (int n) p h = absurd (cc h)
  need_dict-obj (real x) p h = absurd (cc h)
  need_dict-obj (text s) p h = absurd (cc h)
  need_dict-obj (arr vs) p h = absurd (cc h)

  -- The phases of a workload before and after.
  abbrev pub PhasesMade : Json F → Option (Json F) → Option (Json F) → Type 0
  PhasesMade connections none none = Unit
  PhasesMade connections (some (arr ps)) (some (arr qs)) = AllReconnected connections ps qs
  PhasesMade connections _ _ = ⊥

  -- A workload that is made of another one, whose phases have the given connections.
  abbrev pub Made : Json F → Fields F → Json F → Type 0
  Made connections old document =
      (new : Fields F) × (document ≡ obj new)
      × PhasesMade connections (get old "phases") (get new "phases")
      × ((k : String) → "phases" ≢ k → get new k ≡ get old k)

  with_phases-Made :
      (connections : Json F) (old : Fields F) (o : Option (Json F)) (document : Json F)
      → get old "phases" ≡ o
      → with_phases connections old o ≡ ok document
      → Made connections old document
  with_phases-Made connections old none document e h =
      (old, sym (ok-injective h), rw e tt, λ k n. refl)
  with_phases-Made connections old (some (arr ps)) document e h =
      let (qs, made, same) = >>=-eq-ok (connect_phases connections ps) _ h in
      (
        put old "phases" (arr qs),
        sym (ok-injective same),
        rw (e, get-put old "phases" "phases" (arr qs))
            (connect_phases-AllReconnected connections ps qs made),
        λ k n. get-put_other old "phases" k (arr qs) n,
      )
  with_phases-Made connections old (some null) document e h = absurd (cc h)
  with_phases-Made connections old (some (bool b)) document e h = absurd (cc h)
  with_phases-Made connections old (some (int n)) document e h = absurd (cc h)
  with_phases-Made connections old (some (real x)) document e h = absurd (cc h)
  with_phases-Made connections old (some (text s)) document e h = absurd (cc h)
  with_phases-Made connections old (some (obj o)) document e h = absurd (cc h)

  -- A generated workload is the template with the given connections in each of its phases, and nothing
  -- else changed.
  pub generate_workload-Made :
      (host : Host F) (template_path : String) (connections document : Json F)
      → generate_workload host template_path connections ≡ ok document
      → (old : Fields F) × (load_config host template_path ≡ ok (obj old))
        × Made connections old document
  unfolding generate_workload
  generate_workload-Made host template_path connections document h =
      let (read, loaded, h1) = >>=-eq-ok (load_config host template_path) _ h in
      let (old, is_dict, h2) = >>=-eq-ok (need_dict read) _ h1 in
      (
        old,
        loaded ∙ ap ok (need_dict-obj read old is_dict),
        with_phases-Made connections old (get old "phases") document refl h2,
      )
