-- ===== src/Matrix/Results.antt =====
-- The results of a run: the lines of a metrics file, the run directory, the `latest` link, and the
-- manifest. A directory is the dict of its files' texts, and a byte of a file is a character.
pub mod Fresh
use Prim.Native.Char.{code}
use Prim.Native.String
use resp_bench.Prelude.{
  ℕ, zero, suc, ◌+◌, ◌-◌, Bool, true, false, not, ◌&&◌, ◌||◌, ltb, Option, none, some, List, [],
  ◌∷◌, ◌++◌, map, length, String, str_eq, ◌==◌, if◌then◌else◌,
}
use resp_bench.Prelude.Int.{ℤ, pos}
use resp_bench.Prelude.Dict.{Dict, put}
use resp_bench.Prelude.Dict
use resp_bench.Prelude.Glob.{fnmatch}
use resp_bench.Prelude.Paths.{base_name, stem}
use resp_bench.Prelude.Texts.{concat, join, is_space, member, sorted_set}
use resp_bench.Prelude.Results.{value_error, Result, ok, err}
use resp_bench.Floats.{Floats}
use resp_bench.Keys.{decimal}
use resp_bench.Json.{Json, null, bool, int, text, arr, obj, object, items_of}
use resp_bench.Matrix.{Outcome, refused, done}
use resp_bench.Matrix.Parse.{MatrixConfig}
use resp_bench.Matrix.Series.{Combo}

abbrev pub Files : Type 0
Files = Dict String

unfoldable pub ndjson_size : Files → String → ℕ
unfolding Dict.get
ndjson_size files path = elim (Dict.get files path) [
  | none ↦ 0
  | some content ↦ Prim.Native.String.count content
]

abbrev drop : ℕ → String → String
drop zero s = s
drop (suc n) String.[] = String.[]
drop (suc n) (String.◌∷◌ c s) = drop n s

abbrev one_if : Bool → ℕ
one_if b = if b then 1 else 0

-- The lines that are not blank; `seen` tells that the line so far has more than white space.
abbrev pub nonblank_lines : Bool → String → ℕ
nonblank_lines seen String.[] = one_if seen
nonblank_lines seen (String.◌∷◌ c s) =
    let is_break = code c == 10 || code c == 13 in
    (if is_break then one_if seen else 0)
    + nonblank_lines (if is_break then false else seen || not (is_space c)) s

unfoldable pub count_ndjson_lines : Files → String → ℕ → ℕ
unfolding Dict.get
count_ndjson_lines files path offset = elim (Dict.get files path) [
  | none ↦ 0
  | some content ↦ nonblank_lines false (drop offset content)
]

-- A run directory that does not exist is none.
abbrev pub Directory : Type 0
Directory = Option Files

abbrev names_matching : String → Files → List String
names_matching pattern [] = []
names_matching pattern ((name, content) ∷ files) =
    let rest = names_matching pattern files in if fnmatch name pattern then name ∷ rest else rest

abbrev matching_all : List String → Files → List String
matching_all [] files = []
matching_all (pattern ∷ patterns) files =
    sorted_set (names_matching pattern files) ++ matching_all patterns files

abbrev pub result_patterns : List String
result_patterns = "*.ndjson" ∷ "_manifest.json" ∷ []

unfoldable pub existing_result_files : Directory → List String
unfolding fnmatch sorted_set
existing_result_files none = []
existing_result_files (some files) = matching_all result_patterns files

unfoldable pub validate_run_id : (String → String) → String → Result String
unfolding base_name
validate_run_id repr run_id =
    if str_eq run_id "" || not (str_eq (base_name run_id) run_id) || member run_id ("." ∷ ".." ∷ [])
    then err
        (value_error (concat ("run id must be a single path segment, got " ∷ repr run_id ∷ [])))
    else ok run_id

abbrev pub remove : String → Files → Files
remove name [] = []
remove name ((k, content) ∷ files) =
    let rest = remove name files in if str_eq k name then rest else (k, content) ∷ rest

abbrev pub remove_all : List String → Files → Files
remove_all [] files = files
remove_all (name ∷ names) files = remove_all names (remove name files)

abbrev pub files_of : Directory → Files
files_of none = []
files_of (some files) = files

abbrev first_five : ℕ → List String → List String
first_five zero names = []
first_five (suc n) [] = []
first_five (suc n) (name ∷ names) = name ∷ first_five n names

abbrev shown_names : List String → String
shown_names names = concat (
    join ", " (first_five 5 names)
    ∷ (if ltb 5 (length names)
        then concat (", … (+" ∷ decimal (length names - 5) ∷ " more)" ∷ [])
        else "")
    ∷ [])

abbrev pub guard_existing :
    String → Bool → Bool → List String → Directory → Outcome Unit × Directory
guard_existing results_dir resume overwrite [] dir = (done tt, some (files_of dir))
guard_existing results_dir resume true existing dir =
    (done tt, some (remove_all existing (files_of dir)))
guard_existing results_dir true false existing dir = (done tt, some (files_of dir))
guard_existing results_dir false false existing dir = (
  refused (
      concat (
        results_dir
        ∷ " already contains results ("
        ∷ shown_names existing
        ∷ "). Metrics are appended, so writing here would merge two runs into one file. "
        ∷ "Use a new --run-id (the default is a UTC timestamp), --resume to "
        ∷ "append deliberately, or --overwrite to discard them."
        ∷ [])),
  dir,
)

abbrev pub with_run_id :
    Result String → (String → Outcome Unit × Directory) → Directory → Outcome Unit × Directory
with_run_id (ok run_id) next dir = next run_id
with_run_id (err (value_error message)) next dir = (refused message, dir)
with_run_id (err e) next dir = (Outcome.raised e, dir)

-- The answer, and the run directory after it.
unfoldable pub prepare_results_dir :
    (String → String) → String → String → Bool → Bool → Directory → Outcome Unit × Directory
unfolding validate_run_id existing_result_files join decimal
prepare_results_dir repr output_dir run_id resume overwrite dir =
    with_run_id (validate_run_id repr run_id)
      (λ id.
        guard_existing (concat (output_dir ∷ "/" ∷ id ∷ [])) resume overwrite
          (existing_result_files dir) dir)
      dir

-- What stands under the name `latest`.
pub data Link : Type 0 where
  absent no_link : Link
  link_to : String → Link

-- Whether the link was made, and what stands there afterwards.
unfoldable pub update_latest_link : String → Link → Bool × Link
update_latest_link run_id no_link = (false, no_link)
update_latest_link run_id link = (true, link_to run_id)
