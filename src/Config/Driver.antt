-- ===== src/Config/Driver.antt =====
-- Driver settings (config/driver_config.py). The dicts `tls` and `auth` are None where missing.
use resp_bench.Prelude.{String, Bool, true, false, not, Option, none, some, str_eq}
use resp_bench.Prelude.Int.{ℤ, pos, eqb_ℤ}
use resp_bench.Floats.{Floats}
use resp_bench.Json.{Json, Fields, null, bool, int, real, text, arr, obj, nil, end, get}

module _ (fl : Floats) where
  pub record DriverConfig : Type 0 where
    pub schema_version : Option String
    pub description : Option String
    pub driver_id : Option String
    pub mode : Option String
    pub command_timeout_ms : Option ℤ
    pub tls : Option (Fields fl.Float)
    pub auth : Option (Fields fl.Float)
    pub specific_driver_config : Fields fl.Float

  -- `bool(value)` of a JSON value
  abbrev pub truthy : Json fl.Float → Bool
  truthy null = false
  truthy (bool b) = b
  truthy (int n) = not (eqb_ℤ n (pos 0))
  truthy (real x) = not (fl.eqb x (fl.of_int (pos 0)))
  truthy (text s) = not (str_eq s "")
  truthy (arr nil) = false
  truthy (arr _) = true
  truthy (obj end) = false
  truthy (obj _) = true

  -- `bool(d and d.get(key))`
  abbrev pub has_truthy : Option (Fields fl.Float) → String → Bool
  has_truthy none k = false
  has_truthy (some o) k = elim (get o k) [ none ↦ false | some v ↦ truthy v ]

  abbrev is_mode : DriverConfig → String → Bool
  is_mode c m = elim c.mode [ none ↦ false | some s ↦ str_eq s m ]

  unfoldable pub is_standalone : DriverConfig → Bool
  is_standalone c = is_mode c "standalone"

  unfoldable pub is_cluster : DriverConfig → Bool
  is_cluster c = is_mode c "cluster"

  unfoldable pub is_sentinel : DriverConfig → Bool
  is_sentinel c = is_mode c "sentinel"

  unfoldable pub tls_enabled : DriverConfig → Bool
  unfolding get
  tls_enabled c = has_truthy c.tls "enabled"

  unfoldable pub secondary_driver_id : DriverConfig → Option (Json fl.Float)
  unfolding get
  secondary_driver_id c = get c.specific_driver_config "secondary_driver_id"
