-- ===== src/Protocol/Strtok.antt =====
-- `strtok(s, " ")` of <string.h>, as `protocol_parse` (server/src/protocol.c) calls it: the buffer
-- is one array, which each call cuts at the end of the token that it returns.
pub mod Words
pub mod Collect
use iot_monitoring_system.Base.{
  ℕ, zero, suc, ◌||◌, List, [], ◌∷◌, ◌++◌, Option, none, some, Bytes, length, ◌==◌, if◌then◌else◌,
}

-- The array, split at the pointer that `strtok` keeps between its calls.
pub record Cursor : Type 0 where
  pub before : Bytes
  pub after : Bytes

abbrev pub memory : Cursor → Bytes
memory cur = cur.before ++ cur.after

abbrev pub space : ℕ
space = b' '

-- strspn(s, " ")
unfoldable pub lead : Bytes → Bytes
lead [] = []
lead (c ∷ cs) = if c == space then c ∷ lead cs else []

unfoldable pub unlead : Bytes → Bytes
unlead [] = []
unlead (c ∷ cs) = if c == space then unlead cs else c ∷ cs

-- strcspn(s, " ")
unfoldable pub token : Bytes → Bytes
token [] = []
token (c ∷ cs) = if c == space || c == 0 then [] else c ∷ token cs

unfoldable pub after_token : Bytes → Bytes
after_token [] = []
after_token (c ∷ cs) = if c == space || c == 0 then c ∷ cs else after_token cs

-- A delimiter behind the token is overwritten by NUL, and the next call starts behind it.
pub cut : Bytes → Bytes → Cursor
cut done [] = record { before = done; after = [] }
cut done (d ∷ ds) =
    if d == 0
    then record { before = done; after = d ∷ ds }
    else record { before = done ++ 0 ∷ []; after = ds }

pub deliver : Bytes → Bytes → Bytes → Option (ℕ × Cursor)
deliver start [] rest = none
deliver start (c ∷ cs) rest = some (length start, cut (start ++ c ∷ cs) rest)

-- The offset of the next token in the array, and the array after the call.
unfoldable pub strtok : Cursor → Option (ℕ × Cursor)
unfolding lead unlead token after_token cut deliver
strtok cur =
    deliver (cur.before ++ lead cur.after) (token (unlead cur.after))
      (after_token (unlead cur.after))

-- `while ((token = strtok(NULL, " ")) && msg->argc < MAX_ARGS) msg->args[msg->argc++] = token;`
-- for `n` free places in `args`: with none free, one more token is cut off and dropped.
unfoldable pub collect : ℕ → Cursor → List ℕ × Cursor
collect zero cur = elim (strtok cur) [ none ↦ ([], cur) | some (o, cur') ↦ ([], cur') ]
collect (suc n) cur = elim (strtok cur) [
  | none ↦ ([], cur)
  | some (o, cur') ↦ let (os, end) = collect n cur' in (o ∷ os, end)
]
