-- ===== src/Base/Decimal.antt =====
-- The conversions `%d` and `%ld` of a number that is not negative.
use iot_monitoring_system.Base.Lists.{All, All-append}
use Prim.Native.Nat.{◌≤◌, ◌*◌, ◌-◌, ℕ, zero, suc, ◌+◌, ◌/◌, ◌%◌}
use mathlib.Core.List.{[], ◌∷◌, ◌++◌}
use native.Mathlib.Omega.{arith}
use iot_monitoring_system.Base.Tests.{ltb, if◌then◌else◌}
use iot_monitoring_system.Base.CString.{Bytes, NoNul, NoNul-append}

-- `n` has at most `n + 1` digits, so fuel `n + 1` is enough.
digits : ℕ → ℕ → Bytes
digits zero n = []
digits (suc fuel) n =
    let front = digits fuel (n / 10) in
    if ltb n 10 then (48 + n) ∷ [] else front ++ (48 + n % 10) ∷ []

unfoldable pub decimal : ℕ → Bytes
unfolding digits
decimal n = digits (suc n) n

digits-NoNul : (fuel n : ℕ) → NoNul (digits fuel n)
unfolding digits
digits-NoNul zero n = tt
digits-NoNul (suc fuel) n =
    ground
      (arith, NoNul-append (digits fuel (n / 10)) ((48 + n % 10) ∷ []) (digits-NoNul fuel (n / 10)))

-- The digits of a number are a string.
pub decimal-NoNul : (n : ℕ) → NoNul (decimal n)
unfolding decimal
decimal-NoNul n = digits-NoNul (suc n) n

abbrev pub IsDigit : ℕ → Type 0
IsDigit c = (48 ≤ c) × (c ≤ 57)

digits-IsDigit : (fuel n : ℕ) → All IsDigit (digits fuel n)
unfolding digits
digits-IsDigit zero n = tt
digits-IsDigit (suc fuel) n = ground (
  arith,
  All-append IsDigit (digits fuel (n / 10)) ((48 + n % 10) ∷ []) (digits-IsDigit fuel (n / 10)),
)

pub decimal-IsDigit : (n : ℕ) → All IsDigit (decimal n)
unfolding decimal
decimal-IsDigit n = digits-IsDigit (suc n) n

-- The number that some digits spell, behind those of `n`.
abbrev pub number_from : ℕ → Bytes → ℕ
number_from n [] = n
number_from n (c ∷ cs) = number_from (n * 10 + (c - 48)) cs
