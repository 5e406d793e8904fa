-- ===== src/Base/Double.antt =====
-- `double`, as a record of operations without laws.
use Prim.Native.Nat.{ℕ}
use mathlib.Core.Bool.{Bool}

-- What is used of `double`.
pub record Doubles (D : Type 0) : Type 0 where
  pub zero : D
  pub one : D
  pub two : D
  pub add : D → D → D
  pub sub : D → D → D
  pub mul : D → D → D
  pub div : D → D → D
  pub square : D → D
  pub sqrt : D → D
  pub from_int : ℕ → D
  pub less : D → D → Bool
  pub equal : D → D → Bool
