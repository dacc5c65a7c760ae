-- ===== src/Interactive/Layouts/Detected.antt =====
-- That the layout which is detected leaves no results unread but by preferring directories.
use Prim.Native.Nat.{Ordering, lt, eq, gt}
use Prim.Native.String
use resp_bench.Prelude.{
  length, ◌≡◌, ◌⊎◌, refl, sym, ap, ◌∙◌, Bool, true, false, ◌&&◌, not, Bool-cases, inl, inr, Option,
  ℕ, subst, none, some, List, [], ◌∷◌, String, if◌then◌else◌, arith, All,
}
use resp_bench.Prelude.Dict.{Dict, insert_item, sorted_items}
use resp_bench.Prelude.Paths.{starts_with, stem}
use resp_bench.Graphs.{Line}
use resp_bench.Interactive.Records.{parse_client_count}
use resp_bench.Interactive.Layouts.{
  Entry, file, dir, Layout, legacy, flat, is_results, is_client_dir, is_flat_file, some_entry,
  visits_of, visits_from, flat_from, files_of, legacy_visits, flat_files, detect_layout,
}

-- What holds of the entries of a dict holds of them in order.
module _ {ℓ κ} {V : Type ℓ} (P : String × V → Type κ) where
  All-insert_item :
      (k : String) (v : V) (d : Dict V) → P (k, v) → All P d → All P (insert_item k v d)
  All-insert_item k v [] p a = (p, tt)
  All-insert_item k v ((j, w) ∷ d) p a =
      go (Prim.Native.String.compare k j) (All-insert_item k v d p a.1)
    where
      go :
          (o : Ordering)
          → All P (insert_item k v d)
          → All P (elim o [ gt ↦ (j, w) ∷ insert_item k v d | _ ↦ (k, v) ∷ (j, w) ∷ d ])
      go gt later = (a.0, later)
      go eq later = (p, a)
      go lt later = (p, a)

  All-sorted_items : (d : Dict V) → All P d → All P (sorted_items d)
  unfolding sorted_items
  All-sorted_items [] a = tt
  All-sorted_items ((k, v) ∷ d) a =
      All-insert_item k v (sorted_items d) a.0 (All-sorted_items d a.1)

module _ {F : Type 0} where
  none_fit :
      (test : String → Entry F → Bool) (d : Dict (Entry F))
      → some_entry test d ≡ false
      → All (λ e. test e.0 e.1 ≡ false) d
  none_fit test [] h = tt
  none_fit test ((name, entry) ∷ d) h = (ground (arith, h), none_fit test d (ground (arith, h)))

  file_unvisited : (count : Option ℕ) (lines : List (Line F)) → visits_of count (file lines) ≡ []
  file_unvisited none lines = refl
  file_unvisited (some n) lines = refl

  dir_unvisited :
      (count : Option ℕ) (files : Dict (List (Line F)))
      → (elim count [ none ↦ false | some n ↦ true ]) ≡ false
      → visits_of count (dir files) ≡ []
  dir_unvisited none files h = refl
  dir_unvisited (some n) files h = absurd (cc h)

  no_visits : (d : Dict (Entry F)) → All (λ e. is_client_dir e.0 e.1 ≡ false) d → visits_from d ≡ []
  no_visits [] a = refl
  no_visits ((name, file lines) ∷ d) a =
      rw (file_unvisited (parse_client_count name) lines) (no_visits d a.1)
  no_visits ((name, dir files) ∷ d) a =
      rw (dir_unvisited (parse_client_count name) files a.0) (no_visits d a.1)

  abbrev IsOther : String × List (Line F) → Type 0
  IsOther (name, lines) = (is_results name && not (starts_with name "_")) ≡ false

  no_flat : (d : Dict (List (Line F))) → All IsOther d → flat_from d ≡ []
  no_flat [] a = refl
  no_flat ((name, lines) ∷ d) a =
      ap (λ b. if b then (stem name, lines) ∷ flat_from d else flat_from d) a.0 ∙ no_flat d a.1

  others_only :
      (d : Dict (Entry F)) → All (λ e. is_flat_file e.0 e.1 ≡ false) d → All IsOther (files_of d)
  others_only [] a = tt
  others_only ((name, file lines) ∷ d) a = (a.0, others_only d a.1)
  others_only ((name, dir files) ∷ d) a = others_only d a.1

  -- How many results files there are in the other layout.
  abbrev unread : Layout → Dict (Entry F) → ℕ
  unread flat d = length (legacy_visits d)
  unread legacy d = length (flat_files d)

  -- None, except for files beside directories.
  abbrev pub NothingLost : Layout → Dict (Entry F) → Type 0
  NothingLost layout d =
      (unread layout d ≡ 0) ⊎ ((layout ≡ legacy) × (some_entry is_client_dir d ≡ true))

  -- Where the flat layout is detected, there is no results file in a directory of clients; where the
  -- legacy layout is, there is no results file beside them, unless there is such a directory.
  pub detect_layout-NothingLost :
      (d : Dict (Entry F)) (layout : Layout) → detect_layout d ≡ layout → NothingLost layout d
  unfolding detect_layout legacy_visits flat_files
  detect_layout-NothingLost d layout h = elim (Bool-cases (some_entry is_client_dir d)) [
    | inl some_dir ↦ subst (λ l. NothingLost l d) (layout_of some_dir ∙ h) (inr (refl, some_dir))
    | inr no_dir ↦
        let left = none_fit is_client_dir d no_dir in
        let unvisited = no_visits (sorted_items d) (All-sorted_items _ d left) in
        elim (Bool-cases (some_entry is_flat_file d)) [
          | inl some_file ↦
              subst (λ l. NothingLost l d) (flat_layout no_dir some_file ∙ h)
                (inl (ap length unvisited))
          | inr no_file ↦
              let others = others_only d (none_fit is_flat_file d no_file) in
              let unread_files =
                no_flat (sorted_items (files_of d))
                  (All-sorted_items IsOther (files_of d) others) in
              subst (λ l. NothingLost l d) (fallback no_dir no_file ∙ h)
                (inl (ap length unread_files))
        ]
  ]
    where
      choice : Bool → Bool → Layout
      choice a b = if a then legacy else if b then flat else legacy

      layout_of : some_entry is_client_dir d ≡ true → legacy ≡ detect_layout d
      layout_of e = ap (λ a. choice a (some_entry is_flat_file d)) (sym e)

      flat_layout :
          some_entry is_client_dir d ≡ false
          → some_entry is_flat_file d ≡ true
          → flat ≡ detect_layout d
      flat_layout e f =
          ap (choice false) (sym f) ∙ ap (λ a. choice a (some_entry is_flat_file d)) (sym e)

      fallback :
          some_entry is_client_dir d ≡ false
          → some_entry is_flat_file d ≡ false
          → legacy ≡ detect_layout d
      fallback e f =
          ap (choice false) (sym f) ∙ ap (λ a. choice a (some_entry is_flat_file d)) (sym e)
