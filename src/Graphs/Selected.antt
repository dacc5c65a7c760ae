-- ===== src/Graphs/Selected.antt =====
-- Which rows the graphs are drawn from.
use resp_bench.Prelude.{
  ◌≡◌, ◌≢◌, ◌⊎◌, refl, ap, subst, ◌∙◌, Bool, true, false, Bool-cases, inl, inr, Option, none, some,
  List, [], ◌∷◌, String, eq_iff, arith, All, All-append,
}
use resp_bench.Prelude.Results.{Result, ok, err, ◌>>=◌, >>=-eq-ok, ok-injective}
use resp_bench.Json.{
  Json, Fields, end, null, bool, int, real, text, arr, obj, get, put, need_dict, get_dict_or_empty,
}
use resp_bench.Matrix.Generate.Values.{get-put_other}
use resp_bench.Graphs.{
  Line, blank, broken, document, is_text, is_completed, right_phase, is_selected, keep_row,
  load_lines, load_results,
}

module _ {F : Type 0} where
  -- A value that is told to be a text is that text.
  pub is_text-true : (v : Option (Json F)) (s : String) → is_text v s ≡ true → v ≡ some (text s)
  is_text-true (some (text t)) s h =
      let q : t ≡ s = ground (arith, eq_iff t s, h) in ap (λ x. some (text x)) q
  is_text-true none s h = absurd (cc h)
  is_text-true (some null) s h = absurd (cc h)
  is_text-true (some (bool b)) s h = absurd (cc h)
  is_text-true (some (int n)) s h = absurd (cc h)
  is_text-true (some (real x)) s h = absurd (cc h)
  is_text-true (some (arr vs)) s h = absurd (cc h)
  is_text-true (some (obj o)) s h = absurd (cc h)

module _ {F : Type 0} (phase_filter : String) (language : Option String) where
  -- A row of the phase that is asked for, which completed or does not say how it ended.
  abbrev pub IsGood : Fields F → Type 0
  IsGood row =
      (phase : Fields F) × (get_dict_or_empty row "phase" ≡ ok phase)
      × (get phase "id" ≡ some (text phase_filter))
      × ((get phase "status" ≡ none) ⊎ (get phase "status" ≡ some (text "COMPLETED")))

  is_completed-true :
      (v : Option (Json F)) → is_completed v ≡ true → (v ≡ none) ⊎ (v ≡ some (text "COMPLETED"))
  is_completed-true none h = inl refl
  is_completed-true (some v) h = inr (is_text-true (some v) "COMPLETED" h)

  right_phase-good :
      (row phase : Fields F)
      → right_phase phase_filter language row phase ≡ ok true
      → (is_text (get phase "id") phase_filter ≡ true) × (is_completed (get phase "status") ≡ true)
  right_phase-good row phase h = elim (Bool-cases (is_text (get phase "id") phase_filter)) [
    | inl e ↦ elim (Bool-cases (is_completed (get phase "status"))) [
      | inl c ↦ (e, c)
      | inr c ↦
          absurd (not_skipped (get_dict_or_empty row "metadata") (rw (e, c, right_phase) at h))
    ]
    | inr e ↦ absurd (false_not_true (rw (e, right_phase) at h))
  ]
    where
      false_not_true : ◌≡◌ {A = Result Bool} (ok false) (ok true) → ⊥
      false_not_true q = cc (ok-injective q)

      not_skipped :
          (found : Result (Fields F))
          → ◌≡◌ {A = Result Bool} (found >>= λ metadata. ok false) (ok true)
          → ⊥
      not_skipped (err e) q = absurd (cc q)
      not_skipped (ok metadata) q = false_not_true q

  is_selected-IsGood :
      (row : Fields F) → is_selected phase_filter language row ≡ ok true → IsGood row
  unfolding is_selected
  is_selected-IsGood row h =
      let (phase, read, h1) = >>=-eq-ok (get_dict_or_empty row "phase") _ h in
      let (id, status) = right_phase-good row phase h1 in
      (phase, read, is_text-true _ phase_filter id, is_completed-true _ status)

  source_kept :
      (row : Fields F) (path : String) → IsGood row → IsGood (put row "_source_file" (text path))
  unfolding get_dict_or_empty
  source_kept row path g =
      let other : "_source_file" ≢ "phase" = ground (arith, eq_iff "_source_file" "phase") in
      let same : get_dict_or_empty (put row "_source_file" (text path)) "phase"
          ≡ get_dict_or_empty row "phase" =
        ap read_phase (get-put_other row "_source_file" "phase" (text path) other) in
      (g.0, same ∙ g.1, g.2, g.3)
    where
      read_phase : Option (Json F) → Result (Fields F)
      read_phase o = elim o [ none ↦ ok end | some v ↦ need_dict v ]

  keep_row-IsGood :
      (path : String) (row : Fields F) (selected : Bool) (later : List (Fields F))
      → is_selected phase_filter language row ≡ ok selected
      → All IsGood later
      → All IsGood (keep_row path row selected later)
  keep_row-IsGood path row true later h a = (source_kept row path (is_selected-IsGood row h), a)
  keep_row-IsGood path row false later h a = a

  load_lines-IsGood :
      (path : String) (lines : List (Line F)) (rows : List (Fields F))
      → load_lines phase_filter language path lines ≡ ok rows
      → All IsGood rows
  unfolding load_lines
  load_lines-IsGood path [] rows h = subst (All IsGood) (ok-injective h) tt
  load_lines-IsGood path (blank ∷ lines) rows h = load_lines-IsGood path lines rows h
  load_lines-IsGood path (broken ∷ lines) rows h = load_lines-IsGood path lines rows h
  load_lines-IsGood path (document value ∷ lines) rows h =
      let (row, is_dict, h1) = >>=-eq-ok (need_dict value) _ h in
      let (selected, chosen, h2) = >>=-eq-ok (is_selected phase_filter language row) _ h1 in
      let (later, loaded, same) = >>=-eq-ok (load_lines phase_filter language path lines) _ h2 in
      subst (All IsGood) (ok-injective same)
        (keep_row-IsGood path row selected later chosen (load_lines-IsGood path lines later loaded))

  -- Every row that the graphs are drawn from belongs to the phase that is asked for, and the phase
  -- completed or the row does not say how it ended.
  pub load_results-IsGood :
      (files : List (String × Option (List (Line F)))) (rows : List (Fields F))
      → load_results files phase_filter language ≡ ok rows
      → All IsGood rows
  unfolding load_results
  load_results-IsGood [] rows h = subst (All IsGood) (ok-injective h) tt
  load_results-IsGood ((path, none) ∷ files) rows h = load_results-IsGood files rows h
  load_results-IsGood ((path, some lines) ∷ files) rows h =
      let (first, loaded, h1) = >>=-eq-ok (load_lines phase_filter language path lines) _ h in
      let (later, rest, same) = >>=-eq-ok (load_results files phase_filter language) _ h1 in
      subst (All IsGood) (ok-injective same) (
        All-append IsGood first later (load_lines-IsGood path lines first loaded)
          (load_results-IsGood files later rest))
