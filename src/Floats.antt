-- ===== src/Floats.antt =====
-- Python's floats, as the operations that the engine uses. `sum` is the built-in over a list of
-- floats. The model has no floats of its own: each definition that uses one takes this record.
use resp_bench.Prelude.{ℕ, Bool, List}
pub mod Sample
use resp_bench.Prelude.Int.{ℤ}

pub record Floats : Type 1 where
  pub Float : Type 0
  pub of_int : ℤ → Float
  pub add : Float → Float → Float
  pub div : Float → Float → Float
  pub sum : List Float → Float
  pub leb : Float → Float → Bool
  pub eqb : Float → Float → Bool
