-- ===== src/Interactive/Colors.antt =====
-- The colours and families of drivers (scripts/generate_interactive_graphs.py). The module's dicts and
-- its index change while it runs: `Palette` is their state.
pub mod Kept
use Prim.Native.String
use resp_bench.Prelude.{
  ℕ, zero, suc, ◌+◌, ◌*◌, ◌/◌, ◌%◌, Bool, true, false, Option, none, some, List, [], ◌∷◌, String,
  get_elem?, ltb, if◌then◌else◌,
}
use resp_bench.Prelude.Int.{ℤ, pos, negsuc}
use resp_bench.Prelude.Dict.{Dict}
use resp_bench.Prelude.Dict
use resp_bench.Prelude.Texts.{concat}
use resp_bench.Floats.{Floats}
use resp_bench.Interactive.Numbers.{Numeric}

abbrev driver_colors : Dict String
driver_colors =
    ("spring-data-valkey-glide", "#00897B")
    ∷ ("spring-data-valkey-jedis", "#43A047")
    ∷ ("spring-data-valkey-lettuce", "#7CB342")
    ∷ ("spring-data-redis-jedis", "#1E88E5")
    ∷ ("spring-data-redis-lettuce", "#5C6BC0")
    ∷ ("valkey-glide", "#E53935")
    ∷ ("jedis", "#FB8C00")
    ∷ ("lettuce", "#F4511E")
    ∷ ("redisson", "#8E24AA")
    ∷ ("stackexchange-redis", "#00ACC1")
    ∷ ("valkey-glide-csharp", "#D81B60")
    ∷ ("valkey-glide-node", "#F9A825")
    ∷ ("ioredis", "#6D4C41")
    ∷ ("iovalkey", "#546E7A")
    ∷ []

abbrev driver_families : Dict String
driver_families =
    ("spring-data-valkey-glide", "spring-data-valkey")
    ∷ ("spring-data-valkey-jedis", "spring-data-valkey")
    ∷ ("spring-data-valkey-lettuce", "spring-data-valkey")
    ∷ ("spring-data-redis-jedis", "spring-data-redis")
    ∷ ("spring-data-redis-lettuce", "spring-data-redis")
    ∷ ("valkey-glide", "low-level")
    ∷ ("jedis", "low-level")
    ∷ ("lettuce", "low-level")
    ∷ ("redisson", "low-level")
    ∷ ("stackexchange-redis", "csharp")
    ∷ ("valkey-glide-csharp", "csharp")
    ∷ ("valkey-glide-node", "node")
    ∷ ("ioredis", "node")
    ∷ ("iovalkey", "node")
    ∷ []

abbrev pub family_order : List String
family_order = "spring-data-valkey" ∷ "spring-data-redis" ∷ "low-level" ∷ "csharp" ∷ "node" ∷ []

abbrev family_labels : Dict String
family_labels =
    ("spring-data-valkey", "Spring Data Valkey")
    ∷ ("spring-data-redis", "Spring Data Redis")
    ∷ ("low-level", "Low-Level Java Drivers")
    ∷ ("csharp", "C# (.NET) Drivers")
    ∷ ("node", "Node.js Drivers")
    ∷ []

abbrev fallback_colors : List String
fallback_colors = "#795548" ∷ "#607D8B" ∷ "#9E9E9E" ∷ "#FF5722" ∷ "#00BCD4" ∷ []

pub record Palette : Type 0 where
  pub colors : Dict String
  pub families : Dict String
  pub fallback_idx : ℕ

abbrev pub first_palette : Palette
first_palette = record { colors = driver_colors; families = driver_families; fallback_idx = 0 }

-- The index is in range.
abbrev pub fallback_color : ℕ → String
fallback_color i = elim (get_elem? fallback_colors (i % 5)) [ none ↦ "" | some color ↦ color ]

abbrev pub color_of : Palette → String → Option String → String × Palette
color_of p driver (some color) = (color, p)
color_of p driver none =
    let color = fallback_color p.fallback_idx in
    (color, record p { colors = Dict.put p.colors driver color; fallback_idx = p.fallback_idx + 1 })

unfoldable pub get_driver_color : Palette → String → String × Palette
unfolding Dict.get Dict.put
get_driver_color p driver = color_of p driver (Dict.get p.colors driver)

unfoldable pub get_driver_family : Palette → String → String
unfolding Dict.get
get_driver_family p driver = elim (Dict.get p.families driver) [
  | none ↦ "other"
  | some family ↦ family
]

-- `FAMILY_LABELS.get(family, family)`
unfoldable pub family_label_of : String → String
unfolding Dict.get
family_label_of family = elim (Dict.get family_labels family) [ none ↦ family | some label ↦ label ]

-- Hue, saturation and lightness.
abbrev Hsl : Type 0
Hsl = ℕ × ℕ × ℕ

abbrev pub driver_base_colors : Dict (ℕ × ℕ × ℕ)
driver_base_colors =
    ("spring-data-valkey-glide", (174, 63, 48))
    ∷ ("spring-data-valkey-jedis", (122, 50, 45))
    ∷ ("spring-data-valkey-lettuce", (88, 47, 48))
    ∷ ("spring-data-redis-jedis", (211, 79, 50))
    ∷ ("spring-data-redis-lettuce", (232, 43, 55))
    ∷ ("valkey-glide", (2, 76, 55))
    ∷ ("jedis", (33, 96, 49))
    ∷ ("lettuce", (14, 89, 50))
    ∷ ("redisson", (277, 65, 40))
    ∷ ("stackexchange-redis", (187, 80, 38))
    ∷ ("valkey-glide-csharp", (340, 75, 47))
    ∷ []

abbrev pub line_dashes : List String
line_dashes = "solid" ∷ "dash" ∷ "dot" ∷ "dashdot" ∷ "longdash" ∷ "longdashdot" ∷ []

abbrev hex_digits : List String
hex_digits =
    "0" ∷ "1" ∷ "2" ∷ "3" ∷ "4" ∷ "5" ∷ "6" ∷ "7" ∷ "8" ∷ "9" ∷ "A" ∷ "B" ∷ "C" ∷ "D" ∷ "E" ∷ "F"
    ∷ []

abbrev hex_digit : ℕ → String
hex_digit n = elim (get_elem? hex_digits n) [ none ↦ "" | some digit ↦ digit ]

-- The digits of a number below the fuel.
abbrev hex_from : ℕ → ℕ → String
hex_from zero n = ""
hex_from (suc fuel) n =
    let front = hex_from fuel (n / 16) in
    if ltb n 16 then hex_digit n else concat (front ∷ hex_digit (n % 16) ∷ [])

-- `f"{n:02X}"`
unfoldable two_hex : ℤ → String
two_hex (pos n) = if ltb n 16 then concat ("0" ∷ hex_digit n ∷ []) else hex_from (suc n) n
two_hex (negsuc n) = concat ("-" ∷ hex_from (suc (suc n)) (suc n) ∷ [])

module _ (fl : Floats) (num : Numeric fl) where
  abbrev whole : ℕ → fl.Float
  whole n = fl.of_int (pos n)

  abbrev sector : ℕ → fl.Float → fl.Float → fl.Float × fl.Float × fl.Float
  sector h c x =
      if ltb h 60
      then (c, x, whole 0)
      else if ltb h 120
      then (x, c, whole 0)
      else if ltb h 180
      then (whole 0, c, x)
      else if ltb h 240
      then (whole 0, x, c)
      else if ltb h 300
      then (x, whole 0, c)
      else (c, whole 0, x)

  abbrev channel : fl.Float → fl.Float → String
  channel m v = two_hex (num.to_int (num.mul (fl.add v m) (whole 255)))

  unfoldable pub hsl_to_hex : ℕ → ℕ → fl.Float → String
  unfolding two_hex
  hsl_to_hex h s_percent l_percent =
      let s = fl.div (whole s_percent) (num.literal "100.0") in
      let l = fl.div l_percent (num.literal "100.0") in
      let c = num.mul (num.sub (whole 1) (num.abs (num.sub (num.mul (whole 2) l) (whole 1)))) s in
      let turn = num.modulo (fl.div (whole h) (whole 60)) (whole 2) in
      let x = num.mul c (num.sub (whole 1) (num.abs (num.sub turn (whole 1)))) in
      let m = num.sub l (fl.div c (whole 2)) in
      let (r, g, b) = sector h c x in concat ("#" ∷ channel m r ∷ channel m g ∷ channel m b ∷ [])
