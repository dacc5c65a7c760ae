-- ===== src/Monitor.antt =====
-- The system monitor (scripts/system_monitor.py): the readers of /proc. A file is the list of its
-- lines, or none where opening it fails with one of the exceptions that the reader catches.
pub mod Samples
use Prim.Native.Char.{code}
use Prim.Native.String
use resp_bench.Prelude.{
  ℕ, Bool, true, false, ◌&&◌, leb, Option, none, some, List, [], ◌∷◌, String, str_eq, get_elem?,
  if◌then◌else◌, ◌==◌,
}
use resp_bench.Prelude.Int.{ℤ, pos, ◌+ℤ◌, ◌*ℤ◌, eqb_ℤ}
use resp_bench.Prelude.Paths.{starts_with, tail}
use resp_bench.Prelude.Texts.{is_space}
use resp_bench.Prelude.Results.{failure, Result, ok, err, map_result, ◌>>=◌}
use resp_bench.Cli.{parse_int}

abbrev add_word : String → List String → List String
add_word word words = if str_eq word "" then words else word ∷ words

-- The first word, which may be empty, and the other words.
abbrev split_first : String → String × List String
split_first String.[] = (String.[], [])
split_first (String.◌∷◌ c s) =
    let (word, words) = split_first s in
    if is_space c then (String.[], add_word word words) else (String.◌∷◌ c word, words)

-- `text.split()`
unfoldable pub split : String → List String
split s = let (word, words) = split_first s in add_word word words

-- `xs[i]`
abbrev item {ℓ} : {A : Type ℓ} → List A → ℕ → Result A
item xs i = elim (get_elem? xs i) [ none ↦ err (failure "list index out of range") | some x ↦ ok x ]

abbrev sum : List ℤ → ℤ
sum [] = pos 0
sum (n ∷ ns) = n +ℤ sum ns

abbrev tail_list : List String → List String
tail_list [] = []
tail_list (w ∷ ws) = ws

abbrev jiffies_of : List ℤ → Result (ℤ × ℤ)
jiffies_of values =
    item values 3 >>= λ idle. item values 4 >>= λ iowait. ok (sum values, idle +ℤ iowait)

-- The lines of /proc/stat; `open` may fail as well.
unfoldable pub read_cpu_jiffies : List String → Result (ℤ × ℤ)
unfolding split map_result parse_int
read_cpu_jiffies [] = err (failure "Could not read /proc/stat cpu line")
read_cpu_jiffies (line ∷ lines) =
    let rest = read_cpu_jiffies lines in
    if starts_with line "cpu "
    then (map_result parse_int (tail_list (split line)) >>= jiffies_of)
    else rest

-- `int(line.split()[1]) * 1024`
abbrev kilobytes : String → Result ℤ
kilobytes line = item (split line) 1 >>= λ word. parse_int word >>= λ n. ok (n *ℤ pos 1024)

abbrev rss_in : List String → Result (Option ℤ)
rss_in [] = ok none
rss_in (line ∷ lines) =
    let rest = rss_in lines in
    if starts_with line "VmRSS:" then (kilobytes line >>= λ n. ok (some n)) else rest

unfoldable pub read_process_rss : Option (List String) → Result (Option ℤ)
unfolding split parse_int
read_process_rss none = ok none
read_process_rss (some lines) = rss_in lines

-- An entry of /proc with its files `stat` and `status`.
pub record Entry : Type 0 where
  pub name : String
  pub stat : Option String
  pub status : Option (List String)

abbrev all_digits : String → Bool
all_digits String.[] = true
all_digits (String.◌∷◌ c s) = leb 48 (code c) && (leb (code c) 57 && all_digits s)

abbrev is_digits : String → Bool
is_digits s = if str_eq s "" then false else all_digits s

-- `line[line.rfind(")") + 2:]`, if there is a `)`
abbrev after_last_paren : String → Option String
after_last_paren String.[] = none
after_last_paren (String.◌∷◌ c s) = elim (after_last_paren s) [
  | some rest ↦ some rest
  | none ↦ if code c == 41 then some (tail s) else none
]

-- The RSS of a process of the group; none for another process, and for an exception that is passed over.
abbrev same_group : ℤ → String → Result Bool
same_group pgid rest =
    item (split rest) 2 >>= λ word. parse_int word >>= λ group. ok (eqb_ℤ group pgid)

abbrev or_none : Result (Option ℤ) → Option ℤ
or_none (ok r) = r
or_none (err e) = none

abbrev member_rss : ℤ → Entry → String → Option ℤ
member_rss pgid entry stat = elim (after_last_paren stat) [
  | none ↦ none
  | some rest ↦
      or_none
        (same_group pgid rest >>= λ same. if same then read_process_rss entry.status else ok none)
]

unfoldable pub entry_rss : ℤ → Entry → Option ℤ
unfolding split parse_int read_process_rss
entry_rss pgid entry =
    if is_digits entry.name
    then elim entry.stat [ none ↦ none | some stat ↦ member_rss pgid entry stat ]
    else none

abbrev plus : Option ℤ → Option ℤ → Option ℤ
plus none total = total
plus (some rss) none = some rss
plus (some rss) (some total) = some (rss +ℤ total)

abbrev group_rss : ℤ → List Entry → Option ℤ
group_rss pgid [] = none
group_rss pgid (entry ∷ entries) = plus (entry_rss pgid entry) (group_rss pgid entries)

-- The entries are those of `os.listdir("/proc")`, or none where that fails.
unfoldable pub read_process_group_rss : Option ℤ → Option (List Entry) → Option ℤ
unfolding entry_rss
read_process_group_rss none entries = none
read_process_group_rss (some pgid) none = none
read_process_group_rss (some pgid) (some entries) = group_rss pgid entries

abbrev Memory : Type 0
Memory = Option ℤ × Option ℤ

abbrev both_known : Memory → Bool
both_known (some t, some a) = true
both_known _ = false

-- One line of /proc/meminfo.
abbrev read_line : String → Memory → Result Memory
read_line line (total, available) =
    if starts_with line "MemTotal:"
    then (kilobytes line >>= λ n. ok (some n, available))
    else if starts_with line "MemAvailable:"
    then (kilobytes line >>= λ n. ok (total, some n))
    else ok (total, available)

abbrev memory_from : Memory → List String → Result Memory
memory_from known [] = ok known
memory_from known (line ∷ lines) = read_line line known >>= λ after. elim (both_known after) [
  | true ↦ ok after
  | false ↦ memory_from after lines
]

unfoldable pub read_system_memory : Option (List String) → Result (Option ℤ × Option ℤ)
unfolding split parse_int
read_system_memory none = ok (none, none)
read_system_memory (some lines) = memory_from (none, none) lines
