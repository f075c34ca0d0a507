-- ===== src/Main/Port.antt =====
-- The port argument of `main` (server/src/main.c). `strtol` has its documented meaning, in the C
-- locale, with a `long` of 64 bits.
pub mod Numeral
use iot_monitoring_system.Base.{
  ℕ, zero, suc, ◌-◌, ◌^◌, [], ◌∷◌, Option, none, some, Bool, true, false, ◌&&◌, ◌||◌, Bytes, ltb,
  leb, ◌==◌, if◌then◌else◌, ℤ, pos, negsuc, number_from,
}

-- isspace
abbrev pub is_space : ℕ → Bool
is_space c = c == b' ' || (leb 9 c && leb c 13)

abbrev pub is_digit : ℕ → Bool
is_digit c = leb b'0' c && leb c b'9'

-- The text behind the white space.
pub skip_spaces : Bytes → Bytes
skip_spaces [] = []
skip_spaces (c ∷ cs) = if is_space c then skip_spaces cs else c ∷ cs

-- The digits in front of a text, and the rest.
pub span_digits : Bytes → Bytes × Bytes
span_digits [] = ([], [])
span_digits (c ∷ cs) =
    let (ds, rest) = span_digits cs in if is_digit c then (c ∷ ds, rest) else ([], c ∷ cs)

-- LONG_MAX
abbrev pub long_max : ℕ
long_max = 2 ^ 63 - 1

-- A value out of range is the nearest `long`; `n` is not negative here.
abbrev pub clamp : Bool → ℕ → ℤ
clamp false n = if ltb long_max n then pos long_max else pos n
clamp true zero = pos 0
clamp true (suc n) = if ltb long_max n then negsuc long_max else negsuc n

-- The result for some digits; `none` is the case without digits, where `*end` is the start.
abbrev pub converted : Bool → Bytes → Bytes → Option (ℤ × Bytes)
converted minus [] rest = none
converted minus (d ∷ ds) rest = some (clamp minus (number_from 0 (d ∷ ds)), rest)

-- The number behind the sign.
pub after_sign : Bool → Bytes → Option (ℤ × Bytes)
after_sign minus text = let (ds, rest) = span_digits text in converted minus ds rest

-- An optional sign.
pub signed : Bytes → Option (ℤ × Bytes)
signed [] = none
signed (c ∷ cs) =
    if c == b'-'
    then after_sign true cs
    else if c == b'+'
    then after_sign false cs
    else after_sign false (c ∷ cs)

-- strtol(text, &end, 10): the value and the text at `end`.
unfoldable pub strtol : Bytes → Option (ℤ × Bytes)
unfolding skip_spaces span_digits after_sign signed
strtol text = signed (skip_spaces text)

-- `port_long` when the test of `main` accepts it. A number up to 65535 is below INT_MAX.
abbrev pub accept_port : ℤ → Bytes → Option ℕ
accept_port (pos port_long) [] =
    if ltb port_long 1 || ltb 65535 port_long then none else some port_long
accept_port (pos port_long) (c ∷ cs) = none
accept_port (negsuc n) rest = none

-- What `main` makes of the result of `strtol`.
abbrev pub accept : Option (ℤ × Bytes) → Option ℕ
accept none = none
accept (some (port_long, end)) = accept_port port_long end

unfoldable pub port_of : Bytes → Option ℕ
port_of text = accept (strtol text)
