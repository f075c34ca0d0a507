-- ===== src/Base/Floating.antt =====
-- `double`, `atof` and the conversion `%.2f`: the arithmetic of the platform is a parameter.
use Prim.Native.Nat.{ℕ}
use mathlib.Core.Bool.{Bool}
use iot_monitoring_system.Base.CString.{Bytes, NoNul}

pub record Doubles (F : Type 0) : Type 0 where
  -- a whole-numbered literal such as `30.0`
  pub literal : ℕ → F
  -- `a > b`, `a < b`, `a >= b`, `a <= b`
  pub gt : F → F → Bool
  pub lt : F → F → Bool
  pub ge : F → F → Bool
  pub le : F → F → Bool
  pub atof : Bytes → F
  -- the text of `%.2f`
  pub format : F → Bytes
  -- what `printf` writes is a string
  pub format-NoNul : (x : F) → NoNul (format x)
