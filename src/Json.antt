-- ===== src/Json.antt =====
-- JSON documents as `json.load` returns them, over a type of floats, and the reads of a dict that
-- the loaders make. A field of another JSON type than the schema gives (configs/schemas) is outside
-- the model: the read answers `ill_typed`, in place of what Python then does.
use resp_bench.Prelude.{String, Bool, Option, none, some, List, [], ◌∷◌, str_eq, if◌then◌else◌}
use resp_bench.Prelude.Int.{ℤ}
use resp_bench.Prelude.Results.{ill_typed, Result, ok, err}

mutual
  pub data Json (F : Type 0) : Type 0 where
    null : Json F
    bool : Bool → Json F
    int : ℤ → Json F
    real : F → Json F
    text : String → Json F
    arr : Items F → Json F
    obj : Fields F → Json F

  pub data Items (F : Type 0) : Type 0 where
    nil : Items F
    cons : Json F → Items F → Items F

  pub data Fields (F : Type 0) : Type 0 where
    end : Fields F
    field : String → Json F → Fields F → Fields F

module _ {F : Type 0} where
  abbrev pub fields_of : List (String × Json F) → Fields F
  fields_of [] = end
  fields_of ((k, v) ∷ rest) = field k v (fields_of rest)

  abbrev pub object : List (String × Json F) → Json F
  object kvs = obj (fields_of kvs)

  abbrev pub items_of : List (Json F) → Items F
  items_of [] = nil
  items_of (v ∷ vs) = cons v (items_of vs)

  abbrev pub items : Items F → List (Json F)
  items nil = []
  items (cons v vs) = v ∷ items vs

  abbrev pub entries : Fields F → List (String × Json F)
  entries end = []
  entries (field k v rest) = (k, v) ∷ entries rest

  unfoldable pub get : Fields F → String → Option (Json F)
  get end k = none
  get (field j v rest) k = if str_eq j k then some v else get rest k

  -- `d[k] = v`, and `d.update(e)`
  unfoldable pub put : Fields F → String → Json F → Fields F
  put end k v = field k v end
  put (field j w rest) k v = if str_eq j k then field j v rest else field j w (put rest k v)

  unfoldable pub update : Fields F → List (String × Json F) → Fields F
  unfolding put
  update o [] = o
  update o ((k, v) ∷ rest) = update (put o k v) rest

  abbrev pub as_text : Json F → Result (Option String)
  as_text null = ok none
  as_text (text s) = ok (some s)
  as_text _ = err ill_typed

  abbrev as_int : Json F → Result (Option ℤ)
  as_int null = ok none
  as_int (int n) = ok (some n)
  as_int _ = err ill_typed

  -- `float(x)` of a number
  abbrev as_float : (ℤ → F) → Json F → Result (Option F)
  as_float of_int null = ok none
  as_float of_int (int n) = ok (some (of_int n))
  as_float of_int (real x) = ok (some x)
  as_float of_int _ = err ill_typed

  abbrev as_dict : Json F → Result (Option (Fields F))
  as_dict null = ok none
  as_dict (obj o) = ok (some o)
  as_dict _ = err ill_typed

  -- `data.get(key, default)`, read at a type; a null stays None
  abbrev pub read_or {ℓ} : {A : Type ℓ} → (Json F → Result A) → A → Fields F → String → Result A
  read_or reader default o k = elim (get o k) [ none ↦ ok default | some v ↦ reader v ]

  unfoldable pub get_text : Fields F → String → Result (Option String)
  unfolding get
  get_text o k = read_or as_text none o k

  unfoldable pub get_text_or : Fields F → String → String → Result (Option String)
  unfolding get
  get_text_or o k default = read_or as_text (some default) o k

  unfoldable pub get_int : Fields F → String → Result (Option ℤ)
  unfolding get
  get_int o k = read_or as_int none o k

  unfoldable pub get_int_or : Fields F → String → ℤ → Result (Option ℤ)
  unfolding get
  get_int_or o k default = read_or as_int (some default) o k

  unfoldable pub get_float : (ℤ → F) → Fields F → String → Result (Option F)
  unfolding get
  get_float of_int o k = read_or (as_float of_int) none o k

  unfoldable pub get_dict : Fields F → String → Result (Option (Fields F))
  unfolding get
  get_dict o k = read_or as_dict none o k

  -- A value that is used as a dict, or as a list, at once.
  abbrev pub need_dict : Json F → Result (Fields F)
  need_dict (obj o) = ok o
  need_dict _ = err ill_typed

  abbrev pub need_list : Json F → Result (List (Json F))
  need_list (arr xs) = ok (items xs)
  need_list _ = err ill_typed

  unfoldable pub get_dict_or_empty : Fields F → String → Result (Fields F)
  unfolding get
  get_dict_or_empty o k = read_or need_dict end o k

  unfoldable pub get_list_or_empty : Fields F → String → Result (List (Json F))
  unfolding get
  get_list_or_empty o k = read_or need_list [] o k
