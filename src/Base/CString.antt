-- ===== src/Base/CString.antt =====
-- C strings. A `char` array is the list of its bytes, NUL included; `c_str` reads the string that
-- it holds. A `const char *` argument is the string that it points to, without its NUL.
-- The functions of <string.h> and the bound of `snprintf` are modelled by their documented meaning.
use Prim.Native.Nat.{ℕ, zero, suc, ◌+◌, ◌-◌, ◌≤◌, ◌<◌}
use Prim.Native.Char.{code}
use Prim.Native.String.{String}
use mathlib.Core.Path.{◌≡◌, refl, ap, ◌∙◌}
use mathlib.Core.Logic.{◌≢◌, ◌↔◌}
use mathlib.Core.Bool.{Bool, true, false, ◌&&◌}
use mathlib.Core.List.{List, [], ◌∷◌, ◌++◌, map}
use native.Mathlib.Omega.{arith}
use iot_monitoring_system.Base.Tests.{◌==◌, leb, if◌then◌else◌}
use iot_monitoring_system.Base.Lists.{
  All-take, take-eq_of_le, set, length, take, drop, replicate, All, length-take, drop-append,
}

abbrev pub Bytes : Type 0
Bytes = List ℕ

-- The bytes of an ASCII literal.
abbrev pub codes : String → Bytes
codes String.[] = []
codes (String.◌∷◌ c s) = code c ∷ codes s

-- The string in a `char` array: the bytes before the first NUL.
abbrev pub c_str : Bytes → Bytes
c_str [] = []
c_str (c ∷ cs) = if c == 0 then [] else c ∷ c_str cs

abbrev pub NoNul : Bytes → Type 0
NoNul = All (λ c. c ≢ 0)

-- `strcmp(a, b) == 0`
abbrev pub str_eq : Bytes → Bytes → Bool
str_eq [] [] = true
str_eq [] (d ∷ ds) = false
str_eq (c ∷ cs) [] = false
str_eq (c ∷ cs) (d ∷ ds) = (c == d) && str_eq cs ds

pub str_eq_iff : (a b : Bytes) → (str_eq a b ≡ true) ↔ (a ≡ b)
str_eq_iff [] [] = ((λ _. refl), (λ _. refl))
str_eq_iff [] (d ∷ ds) = ((λ h. cc), (λ h. cc))
str_eq_iff (c ∷ cs) [] = ((λ h. cc), (λ h. cc))
str_eq_iff (c ∷ cs) (d ∷ ds) = (ground (arith, str_eq_iff cs ds), ground (arith, str_eq_iff cs ds))

pub str_eq_refl : (a : Bytes) → str_eq a a ≡ true
str_eq_refl a = (str_eq_iff a a).1 refl

pub str_eq_ne : (a b : Bytes) → a ≢ b → str_eq a b ≡ false
str_eq_ne a b h = ground (arith, str_eq_iff a b)

-- `strncmp(a, b, n) == 0`
abbrev pub strn_eq : ℕ → Bytes → Bytes → Bool
strn_eq n a b = str_eq (take n a) (take n b)

-- the first `n` bytes that `strncpy` writes: the string, cut or padded by NULs
abbrev pub pad : ℕ → Bytes → Bytes
pad zero src = []
pad (suc n) [] = 0 ∷ pad n []
pad (suc n) (c ∷ cs) = c ∷ pad n cs

-- strncpy(dst, src, n)
abbrev pub strncpy : Bytes → Bytes → ℕ → Bytes
strncpy dst src n = pad n src ++ drop n dst

-- What `snprintf(buf, size, …)` leaves in `buf`, as a string, of the text that it formats.
unfoldable pub snprintf : ℕ → Bytes → Bytes
snprintf size text = take (size - 1) text

-- An array of `n + 1` bytes whose last byte is NUL.
abbrev pub IsTerminated : ℕ → Bytes → Type 0
IsTerminated n a = drop n a ≡ 0 ∷ []

pub length-pad : (n : ℕ) (src : Bytes) → length (pad n src) ≡ n
length-pad zero src = refl
length-pad (suc n) [] = ap suc (length-pad n [])
length-pad (suc n) (c ∷ cs) = ap suc (length-pad n cs)

-- `strncpy` does not touch the bytes behind the first `n`.
pub drop-strncpy : (dst src : Bytes) (n : ℕ) → drop n (strncpy dst src n) ≡ drop n dst
drop-strncpy dst src n = drop-append (pad n src) (drop n dst) n (omega (arith, length-pad n src))

pub strncpy-IsTerminated :
    (dst src : Bytes) (n : ℕ) → IsTerminated n dst → IsTerminated n (strncpy dst src n)
strncpy-IsTerminated dst src n h = drop-strncpy dst src n ∙ h

-- Writing the NUL that is there changes nothing.
pub set_last : (n : ℕ) (a : Bytes) → IsTerminated n a → set a n 0 ≡ a
set_last zero [] h = refl
set_last zero (c ∷ cs) h = ground arith
set_last (suc n) [] h = refl
set_last (suc n) (c ∷ cs) h = ap (◌∷◌ c) (set_last n cs h)

pub zeros-IsTerminated : (n : ℕ) → IsTerminated n (replicate (suc n) 0)
zeros-IsTerminated zero = refl
zeros-IsTerminated (suc n) = zeros-IsTerminated n

c_str-pad : (n : ℕ) (src : Bytes) → NoNul src → c_str (pad n src ++ 0 ∷ []) ≡ take n src
c_str-pad zero src h = refl
c_str-pad (suc n) [] h = refl
c_str-pad (suc n) (c ∷ cs) h = ground (arith, c_str-pad n cs h.1)

-- What a `strncpy` into a field leaves there as a string: the source, cut to the field.
pub c_str-strncpy :
    (dst src : Bytes) (n : ℕ)
    → NoNul src
    → IsTerminated n dst
    → c_str (strncpy dst src n) ≡ take n src
c_str-strncpy dst src n h t = ap (λ e. c_str (pad n src ++ e)) t ∙ c_str-pad n src h

pub c_str-NoNul : (a : Bytes) → NoNul (c_str a)
c_str-NoNul [] = tt
c_str-NoNul (c ∷ cs) = ground (arith, c_str-NoNul cs)

-- The string in a terminated array is shorter than the array.
pub length-c_str-le : (n : ℕ) (a : Bytes) → IsTerminated n a → length (c_str a) ≤ n
length-c_str-le zero [] h = omega arith
length-c_str-le zero (c ∷ cs) h = ground arith
length-c_str-le (suc n) [] h = omega arith
length-c_str-le (suc n) (c ∷ cs) h = ground (arith, length-c_str-le n cs h)

pub NoNul-append : (a b : Bytes) → NoNul a → NoNul b → NoNul (a ++ b)
NoNul-append [] b ha hb = hb
NoNul-append (c ∷ cs) b ha hb = (ha.0, NoNul-append cs b ha.1 hb)

pub c_str-append : (s rest : Bytes) → NoNul s → c_str (s ++ 0 ∷ rest) ≡ s
c_str-append [] rest h = refl
c_str-append (c ∷ cs) rest h = ground (arith, c_str-append cs rest h.1)

pub length-snprintf : (size : ℕ) (text : Bytes) → 0 < size → length (snprintf size text) < size
unfolding snprintf
length-snprintf size text h = omega (arith, length-take (size - 1) text)

-- `tolower` of a byte, in the C locale
abbrev pub to_lower : ℕ → ℕ
to_lower c = if leb b'A' c && leb c b'Z' then c + 32 else c

-- `strcasecmp(a, b) == 0`
abbrev pub strcase_eq : Bytes → Bytes → Bool
strcase_eq a b = str_eq (map to_lower a) (map to_lower b)

pub snprintf-whole : (size : ℕ) (text : Bytes) → length text < size → snprintf size text ≡ text
unfolding snprintf
snprintf-whole size text h = take-eq_of_le (size - 1) text (omega arith)

pub snprintf-NoNul : (size : ℕ) (text : Bytes) → NoNul text → NoNul (snprintf size text)
unfolding snprintf
snprintf-NoNul size text h = All-take _ (size - 1) text h
