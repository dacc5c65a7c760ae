-- ===== src/Config/Loader/Accepted.antt =====
-- Which phases the loader accepts.
use resp_bench.Prelude.{
  String, ◌≡◌, ◌≢◌, refl, ◌↔◌, ◌⊎◌, inl, inr, true, false, not, ◌||◌, Option, none, some, List, [],
  ◌∷◌, All, arith, str_eq, eq_iff,
}
use resp_bench.Prelude.Int.{ℤ, pos, ◌≤ℤ◌, ltb_ℤ}
use resp_bench.Prelude.Texts.{member}
use resp_bench.Prelude.Results.{
  Exc, failure, ill_typed, cancelled, keyboard_interrupt, system_exit, ◌>>=◌, Result, ok, err,
  value_error, check_iff, raise_if_iff, >>=-eq-ok, map_result,
}
use resp_bench.Floats.{Floats}
use resp_bench.Json.{Json, need_dict, get_text, get_list_or_empty, get_text_or, get_dict}
use mathlib.Core.Path.{subst}
use resp_bench.Config.Completion
use resp_bench.Config.Completion.{
  CompletionConfig, duration, requests_type, lacks_positive, has_type,
}
use resp_bench.Config.Keyspace
use resp_bench.Config.Keyspace.{KeyspaceConfig, not_positive}
use resp_bench.Config.Commands.{CommandConfig, supported_commands}
use resp_bench.Config.Phase.{PhaseConfig, WorkloadConfig}
use resp_bench.Config.Loader.{
  total_weight, names, without, is_empty, check_phase, name_phase, parse_phase,
  parse_workload_config, build_phase, shown_id,
}

abbrev pub IsPositive : Option ℤ → Type 0
IsPositive none = ⊥
IsPositive (some z) = pos 1 ≤ℤ z

pub not_positive_iff : (o : Option ℤ) → (not_positive o ≡ false) ↔ IsPositive o
not_positive_iff none = (λ h. cc, λ h. absurd h)
not_positive_iff (some z) = (λ h. ground arith, λ h. ground arith)

pub lacks_positive_iff : (o : Option ℤ) → (lacks_positive o ≡ false) ↔ IsPositive o
lacks_positive_iff none = (λ h. cc, λ h. absurd h)
lacks_positive_iff (some z) = (λ h. ground arith, λ h. ground arith)

abbrev pub IsBounded : CompletionConfig → Type 0
IsBounded c =
    ((c.type ≡ some duration) × IsPositive c.seconds)
    ⊎ ((c.type ≡ some requests_type) × IsPositive c.requests)

abbrev pub IsUsable : KeyspaceConfig → Type 0
IsUsable k =
    IsPositive k.keys_count
    × ((pos 1 ≤ℤ k.key_size_bytes)
        × ((k.generation_alg ≡ "sequential_int") ⊎ (k.generation_alg ≡ "uniform_rand")))

completion_runs : (c : CompletionConfig) → IsBounded c → Completion.validate c ≡ ok tt
unfolding Completion.validate
completion_runs c (inl (t, p)) = rw t ((raise_if_iff _ _ (lacks_positive_iff c.seconds)).1 p)
completion_runs c (inr (t, p)) = rw t ((raise_if_iff _ _ (lacks_positive_iff c.requests)).1 p)

completion-IsBounded :
    (c : CompletionConfig) (o : Option String)
    → c.type ≡ o
    → Completion.validate c ≡ ok tt
    → IsBounded c
unfolding Completion.validate
completion-IsBounded c none e h = absurd (ground arith)
completion-IsBounded c (some t) e h = ground (
  arith,
  eq_iff t duration,
  eq_iff t requests_type,
  (lacks_positive_iff c.seconds).0,
  (lacks_positive_iff c.requests).0,
)

completion_iff : (c : CompletionConfig) → (Completion.validate c ≡ ok tt) ↔ IsBounded c
completion_iff c = (completion-IsBounded c c.type refl, completion_runs c)

alg_iff : (s t u : String) → (not (str_eq s t || str_eq s u) ≡ false) ↔ ((s ≡ t) ⊎ (s ≡ u))
alg_iff s t u = ground (arith, eq_iff s t, eq_iff s u)

size_iff : (z : ℤ) → (ltb_ℤ z (pos 1) ≡ false) ↔ (pos 1 ≤ℤ z)
size_iff z = (λ h. ground arith, λ h. ground arith)

keyspace_iff : (k : KeyspaceConfig) → (Keyspace.validate k ≡ ok tt) ↔ IsUsable k
unfolding Keyspace.validate
keyspace_iff k = check_iff _ _ (raise_if_iff _ _ (not_positive_iff k.keys_count)) (
    check_iff _ _ (raise_if_iff _ _ (size_iff k.key_size_bytes))
      (raise_if_iff _ _ (alg_iff k.generation_alg "sequential_int" "uniform_rand")))

-- The commands are named by the engine's list.
abbrev pub AllSupported : List String → Type 0
AllSupported ns = All (λ n. member n supported_commands ≡ true) ns

without_iff :
    (ns : List String) → (not (is_empty (without ns supported_commands)) ≡ false) ↔ AllSupported ns
without_iff [] = (λ h. tt, λ h. refl)
without_iff (n ∷ ns) =
    (λ h. ground (arith, (without_iff ns).0), λ h. ground (arith, (without_iff ns).1 h.1))

module _ (fl : Floats) where
  -- What the checks of the loader ask of a phase: a positive bound on its work, at least one key and one
  -- connection, at least one command, supported commands only, and a positive total weight.
  pub record IsRunnable (p : PhaseConfig fl) : Type 0 where
    pub bounded : IsBounded p.completion
    pub usable : IsUsable p.keyspace
    pub connected : IsPositive p.connections
    pub commanded : p.commands ≢ []
    pub supported : AllSupported (names fl p.commands)
    pub weighted : fl.leb (total_weight fl p.commands) (fl.of_int (pos 0)) ≡ false

  nonempty_iff : (cs : List (CommandConfig fl)) → (is_empty cs ≡ false) ↔ (cs ≢ [])
  nonempty_iff [] = (λ h. cc, λ h. absurd (h refl))
  nonempty_iff (c ∷ cs) = (λ h e. cc, λ h. refl)

  -- The loader's checks pass for a phase exactly if all of this holds.
  pub check_phase_iff : (p : PhaseConfig fl) → (check_phase fl p ≡ ok tt) ↔ IsRunnable p
  unfolding check_phase
  check_phase_iff p = (
    λ h.
        let t = chain.0 h in
        record {
          bounded = t.0;
          usable = t.1.0;
          connected = t.1.1.0;
          commanded = t.1.1.1.0;
          supported = t.1.1.1.1.0;
          weighted = t.1.1.1.1.1;
        },
    λ r. chain.1 (r.bounded, (r.usable, (r.connected, (r.commanded, (r.supported, r.weighted))))),
  )
    where
      chain : (check_phase fl p ≡ ok tt) ↔ (
          IsBounded p.completion
          × (IsUsable p.keyspace
              × (IsPositive p.connections
                  × ((p.commands ≢ [])
                      × (AllSupported (names fl p.commands)
                          × (fl.leb (total_weight fl p.commands) (fl.of_int (pos 0)) ≡ false))))))
      chain = check_iff _ _ (completion_iff p.completion) (
          check_iff _ _ (keyspace_iff p.keyspace) (
            check_iff _ _ (raise_if_iff _ _ (not_positive_iff p.connections)) (
              check_iff _ _ (raise_if_iff _ _ (nonempty_iff p.commands)) (
                check_iff _ _ (raise_if_iff _ _ (without_iff (names fl p.commands)))
                  (raise_if_iff _ _ (λ e. e, λ e. e))))))

  name_phase-ok :
      {A : Type 0} (i : String) (r : Result A) (a : A) → name_phase i r ≡ ok a → r ≡ ok a
  name_phase-ok i (ok b) a h = h
  name_phase-ok i (err e) a h = absurd (names_error e h)
    where
      names_error : {A : Type 0} {a : A} (e : Exc) → name_phase i (err e) ≡ ok a → ⊥
      names_error (value_error m) h = cc
      names_error (failure m) h = cc
      names_error ill_typed h = cc
      names_error cancelled h = cc
      names_error keyboard_interrupt h = cc
      names_error system_exit h = cc

  -- Whatever the document, a phase that `_parse_phase` returns has passed the checks.
  pub parse_phase-IsRunnable :
      (d : Json fl.Float) (p : PhaseConfig fl) → parse_phase fl d ≡ ok p → IsRunnable p
  unfolding parse_phase
  parse_phase-IsRunnable d p h =
      let (o, _, h1) = >>=-eq-ok (need_dict d) _ h in
      let (i, _, h2) = >>=-eq-ok (get_text o "id") _ h1 in
      let (q, _, h3) = >>=-eq-ok (build_phase fl o) _ (name_phase-ok (shown_id i) _ p h2) in
      let (u, checked, h4) = >>=-eq-ok (check_phase fl q) _ h3 in
      let e : q ≡ p = cc h4 in subst IsRunnable e ((check_phase_iff q).0 checked)

  parse_phases-IsRunnable :
      (ds : List (Json fl.Float)) (ps : List (PhaseConfig fl))
      → map_result (parse_phase fl) ds ≡ ok ps
      → All IsRunnable ps
  unfolding map_result
  parse_phases-IsRunnable [] ps h = subst (All IsRunnable) (let e : [] ≡ ps = cc h in e) tt
  parse_phases-IsRunnable (d ∷ ds) ps h =
      let (p, hp, h1) = >>=-eq-ok (parse_phase fl d) _ h in
      let (qs, hq, h2) = >>=-eq-ok (map_result (parse_phase fl) ds) _ h1 in
      let e : p ∷ qs ≡ ps = cc h2 in
      subst (All IsRunnable) e (parse_phase-IsRunnable d p hp, parse_phases-IsRunnable ds qs hq)

  -- A workload that loads has only phases that passed the checks.
  pub parse_workload_config-IsRunnable :
      (d : Json fl.Float) (w : WorkloadConfig fl)
      → parse_workload_config fl d ≡ ok w
      → All IsRunnable w.phases
  unfolding parse_workload_config
  parse_workload_config-IsRunnable d w h =
      let (o, _, h1) = >>=-eq-ok (need_dict d) _ h in
      let (ps, hp, h2) =
        >>=-eq-ok (get_list_or_empty o "phases" >>= map_result (parse_phase fl)) _ h1 in
      let (ds, _, hd) = >>=-eq-ok (get_list_or_empty o "phases") _ hp in
      let (v, _, h3) = >>=-eq-ok (get_text_or o "schema_version" "1.0") _ h2 in
      let (b, _, h4) = >>=-eq-ok (get_dict o "benchmark_profile") _ h3 in
      let e : ps ≡ w.phases = cc h4 in subst (All IsRunnable) e (parse_phases-IsRunnable ds ps hd)
