-- ===== src/Command/Values.antt =====
-- The value of a SET command, and which commands can be made.
use resp_bench.Prelude.{
  ℕ, zero, suc, ◌+◌, ◌-◌, ◌*◌, ◌/◌, ◌%◌, ◌<◌, ◌≤◌, ◌≡◌, refl, ◌∙◌, true, List, [], ◌∷◌, ◌++◌,
  length, length-append, get_elem?, arith, str_eq, eq_iff, Bool-cases, inl, inr,
}
use native.Mathlib.Decide.{dec_lt}
use mathlib.Core.Path.{subst, sym}
use resp_bench.Prelude.Int.{pos}
use resp_bench.Prelude.Texts.{member}
use resp_bench.Prelude.Results.{ok}
use resp_bench.Floats.{Floats}
use resp_bench.Config.Commands.{CommandConfig, supported_commands}
use resp_bench.Config.Loader.{names}
use resp_bench.Config.Loader.Accepted.{AllSupported, IsRunnable}
use resp_bench.Config.Phase.{PhaseConfig}
use resp_bench.Command.{
  ping_command, get_command, set_command, Bytes, pattern_bytes, repeat, take, generate_value,
  Command, new, create, create_all,
}

module _ {ℓ} {A : Type ℓ} where
  get_elem?-append_left :
      (xs ys : List A) (i : ℕ) → i < length xs → get_elem? (xs ++ ys) i ≡ get_elem? xs i
  get_elem?-append_left [] ys i h = absurd (omega arith)
  get_elem?-append_left (x ∷ xs) ys zero h = refl
  get_elem?-append_left (x ∷ xs) ys (suc i) h = get_elem?-append_left xs ys i (omega arith)

  get_elem?-append_right :
      (xs ys : List A) (i : ℕ) → get_elem? (xs ++ ys) (length xs + i) ≡ get_elem? ys i
  get_elem?-append_right [] ys i = let e : 0 + i ≡ i = omega arith in rw e
  get_elem?-append_right (x ∷ xs) ys i =
      let e : suc (length xs) + i ≡ suc (length xs + i) = omega arith in
      rw e (get_elem?-append_right xs ys i)

length-take : (n : ℕ) (bs : Bytes) → n ≤ length bs → length (take n bs) ≡ n
length-take zero bs h = refl
length-take (suc n) [] h = absurd (omega arith)
length-take (suc n) (b ∷ bs) h = omega (arith, length-take n bs (omega arith))

get_elem?-take : (n : ℕ) (bs : Bytes) (i : ℕ) → i < n → get_elem? (take n bs) i ≡ get_elem? bs i
get_elem?-take zero bs i h = absurd (omega arith)
get_elem?-take (suc n) [] i h = refl
get_elem?-take (suc n) (b ∷ bs) zero h = refl
get_elem?-take (suc n) (b ∷ bs) (suc i) h = get_elem?-take n bs i (omega arith)

length-repeat : (r : ℕ) → length (repeat r pattern_bytes) ≡ 16 * r
length-repeat zero = refl
length-repeat (suc r) =
    omega (arith, length-append pattern_bytes (repeat r pattern_bytes), length-repeat r)

get_elem?-repeat :
    (r i : ℕ) → i < 16 * r → get_elem? (repeat r pattern_bytes) i ≡ get_elem? pattern_bytes (i % 16)
get_elem?-repeat zero i h = absurd (omega arith)
get_elem?-repeat (suc r) i h = elim (dec_lt i 16) [
  | yes low ↦
      let e : i % 16 ≡ i = omega arith in
      get_elem?-append_left pattern_bytes (repeat r pattern_bytes) i low ∙ rw e
  | no high ↦
      let e : i ≡ 16 + (i - 16) = omega arith in
      let m : i % 16 ≡ (i - 16) % 16 = omega arith in
      rw m (
        subst
          (λ k.
            get_elem? (repeat (suc r) pattern_bytes) k ≡ get_elem? pattern_bytes ((i - 16) % 16))
          (sym e)
          (get_elem?-append_right pattern_bytes (repeat r pattern_bytes) (i - 16)
            ∙ get_elem?-repeat r (i - 16) (omega arith)))
]

-- A SET value has exactly the configured size, and its byte i is byte i mod 16 of the pattern.
pub generate_value_lem :
    (size : ℕ)
    → (length (generate_value (pos size)) ≡ size)
      × ((i : ℕ)
          → i < size
          → get_elem? (generate_value (pos size)) i ≡ get_elem? pattern_bytes (i % 16))
unfolding generate_value
generate_value_lem size = (
  length-take size (repeat (size / 16 + 1) pattern_bytes)
      (omega (arith, length-repeat (size / 16 + 1))),
  λ i h.
      get_elem?-take size (repeat (size / 16 + 1) pattern_bytes) i h
      ∙ get_elem?-repeat (size / 16 + 1) i (omega arith),
)

module _ (fl : Floats) where
  create-ok :
      (c : CommandConfig fl)
      → member c.command supported_commands ≡ true
      → (cmd : Command fl) × (create fl c ≡ ok cmd)
  unfolding create
  create-ok c h = elim (Bool-cases (str_eq c.command "ping")) [
    | inl p ↦ (new fl ping_command c, rw p)
    | inr not_ping ↦ elim (Bool-cases (str_eq c.command "get")) [
      | inl g ↦ (new fl get_command c, rw (not_ping, g))
      | inr not_get ↦ elim (Bool-cases (str_eq c.command "set")) [
        | inl s ↦ (new fl set_command c, rw (not_ping, not_get, s))
        | inr not_set ↦ absurd (
            ground (
              arith,
              eq_iff c.command "ping",
              eq_iff "ping" c.command,
              eq_iff c.command "get",
              eq_iff "get" c.command,
              eq_iff c.command "set",
              eq_iff "set" c.command,
            ))
      ]
    ]
  ]

  create_all-ok :
      (cs : List (CommandConfig fl))
      → AllSupported (names fl cs)
      → (cmds : List (Command fl)) × (create_all fl cs ≡ ok cmds) × (length cmds ≡ length cs)
  unfolding create_all
  create_all-ok [] h = ([], refl, refl)
  create_all-ok (c ∷ cs) h =
      let (cmd, made) = create-ok c h.0 in
      let (cmds, rest, len) = create_all-ok cs h.1 in
      (cmd ∷ cmds, rw (made, rest), omega (arith, len))

  -- `CommandFactory.create_all` succeeds on the commands of a phase that the loader accepts, and
  -- makes one command of each.
  pub create_all-total :
      (p : PhaseConfig fl)
      → IsRunnable fl p
      → (cmds : List (Command fl)) × (create_all fl p.commands ≡ ok cmds)
        × (length cmds ≡ length p.commands)
  create_all-total p r = create_all-ok p.commands r.supported
