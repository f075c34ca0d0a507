-- ===== src/Protocol/Parse/Line.antt =====
-- `protocol_parse` against a plain description: the words of the first line.
use iot_monitoring_system.Base.{
  ◌≡◌, ◌≢◌, refl, sym, subst, ◌∙◌, ◌↔◌, ◌||◌, [], ◌∷◌, ◌++◌, Bytes, map, to_lower, ◌==◌,
  if◌then◌else◌, NoNul, arith, str_eq_iff,
}
use iot_monitoring_system.Protocol.Parse.{
  CommandType, unknown, register_sensor, measurement, login, get_sensors, get_status, get_alerts,
  ping, operator_identify, command_type, command_name, cut_line,
}

-- The first line of a message: what stands before a NUL, CR or LF.
unfoldable pub line : Bytes → Bytes
line [] = []
line (c ∷ cs) = if c == 0 || (c == b'\r' || c == b'\n') then [] else c ∷ line cs

-- What `cut_line` leaves behind the line and its NUL.
pub junk : Bytes → Bytes
junk [] = []
junk (c ∷ cs) =
    if c == 0 then cs ++ 0 ∷ [] else if c == b'\r' || c == b'\n' then cs ++ 0 ∷ [] else junk cs

pub line-NoNul : (message : Bytes) → NoNul (line message)
unfolding line
line-NoNul [] = tt
line-NoNul (c ∷ cs) = ground (arith, line-NoNul cs)

pub cut_line-line :
    (message : Bytes) → cut_line (message ++ 0 ∷ []) ≡ line message ++ 0 ∷ junk message
unfolding cut_line line junk
cut_line-line [] = refl
cut_line-line (c ∷ cs) = ground (arith, cut_line-line cs)

abbrev Spells : Bytes → CommandType → Type 0
Spells t c = map to_lower t ≡ map to_lower (command_name c)

command_type-Spells : (t : Bytes) → command_type t ≢ unknown → Spells t (command_type t)
unfolding command_type
command_type-Spells t h = ground (
  arith,
  str_eq_iff (map to_lower t) (map to_lower (command_name register_sensor)),
  str_eq_iff (map to_lower t) (map to_lower (command_name measurement)),
  str_eq_iff (map to_lower t) (map to_lower (command_name login)),
  str_eq_iff (map to_lower t) (map to_lower (command_name get_sensors)),
  str_eq_iff (map to_lower t) (map to_lower (command_name get_status)),
  str_eq_iff (map to_lower t) (map to_lower (command_name get_alerts)),
  str_eq_iff (map to_lower t) (map to_lower (command_name ping)),
  str_eq_iff (map to_lower t) (map to_lower (command_name operator_identify)),
)

command_type_of_Spells :
    (t : Bytes) (c : CommandType) → c ≢ unknown → Spells t c → command_type t ≡ c
unfolding command_type
command_type_of_Spells t unknown h e = absurd (h refl)
command_type_of_Spells t register_sensor h e = rw e
command_type_of_Spells t measurement h e = rw e
command_type_of_Spells t login h e = rw e
command_type_of_Spells t get_sensors h e = rw e
command_type_of_Spells t get_status h e = rw e
command_type_of_Spells t get_alerts h e = rw e
command_type_of_Spells t ping h e = rw e
command_type_of_Spells t operator_identify h e = rw e

-- For each command but the unknown one, a word names it exactly when the word is its name, whatever
-- the case of the letters.
pub command_type_iff :
    (t : Bytes) (c : CommandType)
    → c ≢ unknown
    → (command_type t ≡ c) ↔ (map to_lower t ≡ map to_lower (command_name c))
command_type_iff t c h = (
  λ e. subst (Spells t) e (command_type-Spells t (λ u. h (sym e ∙ u))),
  command_type_of_Spells t c h,
)
