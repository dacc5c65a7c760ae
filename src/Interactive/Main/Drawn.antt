-- ===== src/Interactive/Main/Drawn.antt =====
-- That the charts of the script draw each series.
use resp_bench.Prelude.{Option, String}
use resp_bench.Prelude.Dict
use resp_bench.Prelude.Dict.{Dict, AllValues}
use resp_bench.Floats.{Floats}
use resp_bench.Json.{Json, Fields}
use resp_bench.Interactive.Numbers.{Numeric}
use resp_bench.Interactive.Colors.{Palette}
use resp_bench.Interactive.Assign.{Variants}
use resp_bench.Interactive.Traces.Families.{IsPlaced}

-- All families are among those of the charts.
abbrev Placed : Dict String → Type 0
Placed families = AllValues IsPlaced families

module _ (fl : Floats) (num : Numeric fl) (shown : Json fl.Float → String)
    (manifest : Option (Fields fl.Float)) where
  -- The families of the palette and of the series so far.
  abbrev BothPlaced : Palette × Variants → Type 0
  BothPlaced s = Placed s.0.families × Placed s.1.families
