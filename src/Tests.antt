-- ===== src/Tests.antt =====
-- Tests on concrete inputs. `double` is instantiated by whole numbers.
pub mod Tables
pub mod Requests
mod Handling
mod Parsing
mod Program
use iot_monitoring_system.Base.{
  ℕ, ◌+◌, ◌-◌, ◌*◌, [], ◌∷◌, Bytes, ◌&&◌, leb, ltb, if◌then◌else◌, Doubles, decimal, decimal-NoNul,
}

-- the number that the digits in front of a text spell, behind those of `n`
abbrev pub read_number : ℕ → Bytes → ℕ
read_number n [] = n
read_number n (c ∷ cs) = if leb 48 c && leb c 57 then read_number (n * 10 + (c - 48)) cs else n

instance abbrev pub whole_numbers : Doubles ℕ
whole_numbers = record {
  literal = λ n. n;
  gt = λ a b. ltb b a;
  lt = ltb;
  ge = λ a b. leb b a;
  le = leb;
  atof = read_number 0;
  format = decimal;
  format-NoNul = decimal-NoNul;
}
