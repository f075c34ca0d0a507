-- ===== src/Protocol/Parse/Words.antt =====
-- `protocol_parse` (server/src/protocol.c) and the words of the first line.
use iot_monitoring_system.Base.{
  ℕ, suc, ◌<◌, ◌≡◌, refl, ap, List, [], ◌∷◌, ◌++◌, none, some, Bytes, pos, inl, inr, take, drop,
  c_str, length, NoNul, arith,
}
use iot_monitoring_system.Protocol.Strtok.{Cursor, memory, strtok, collect, lead, unlead, token}
use iot_monitoring_system.Protocol.Strtok.Words.{words, strings_at, words-nil}
use iot_monitoring_system.Protocol.Strtok.Collect.{
  collect-Found, from, behind, strtok-some, strtok-none, collect-suc, token-cases, strtok-string,
  words-cons,
}
use iot_monitoring_system.Protocol.Parse.{
  CommandType, unknown, ParsedMessage, command_type, cut_line, parse_buffer, protocol_parse,
  max_args, max_buffer_size, first_cursor,
}
use iot_monitoring_system.Protocol.Parse.Line.{line, junk, line-NoNul, cut_line-line}

-- The plain description of a request: the command of the first word, and up to eight more words.
abbrev pub type_of : List Bytes → CommandType
type_of [] = unknown
type_of (w ∷ ws) = command_type w

abbrev pub args_of : List Bytes → List Bytes
args_of [] = []
args_of (w ∷ ws) = take max_args ws

abbrev pub Describes : List Bytes → ParsedMessage → Type 0
Describes ws msg = (msg.type ≡ type_of ws) × (strings_at msg.raw_buffer msg.args ≡ args_of ws)

pub parse_buffer-none :
    (buffer : Bytes)
    → strtok (first_cursor buffer) ≡ none
    → parse_buffer buffer ≡ record { type = unknown; args = []; raw_buffer = buffer }
unfolding parse_buffer
parse_buffer-none buffer e = rw (e, parse_buffer)

pub parse_buffer-some :
    (buffer : Bytes) (o : ℕ) (cur : Cursor)
    → strtok (first_cursor buffer) ≡ some (o, cur)
    → parse_buffer buffer ≡ record {
      type = command_type (c_str (drop o (memory cur)));
      args = (collect max_args cur).0;
      raw_buffer = memory (collect max_args cur).1;
    }
unfolding parse_buffer
parse_buffer-some buffer o cur e = rw (e, parse_buffer)

empty-Describes :
    (text junk : Bytes)
    → NoNul text
    → token (unlead text) ≡ []
    → Describes (words text) (parse_buffer (text ++ 0 ∷ junk))
empty-Describes text junk h e =
    rw (parse_buffer-none (text ++ 0 ∷ junk) (strtok-none [] text junk e), words-nil text h e)
      (refl, refl)

word-Describes :
    (text junk : Bytes) (c : ℕ) (cs : Bytes)
    → NoNul text
    → token (unlead text) ≡ c ∷ cs
    → Describes (words text) (parse_buffer (text ++ 0 ∷ junk))
word-Describes text junk c cs h e =
    let next = behind [] text (c ∷ cs) junk in
    let first = strtok-some [] text junk c cs e in
    let kept =
      rw (collect-suc max_args (from [] text junk) first, words-cons [] text junk c cs h e) at
        ((collect-Found (suc max_args) [] text junk h).values) in
    rw
      (
        parse_buffer-some (text ++ 0 ∷ junk) (length (lead text)) next first,
        words-cons [] text junk c cs h e,
      )
      (ap command_type (strtok-string [] text junk c cs h e), ap (drop 1) kept)

parse_buffer-Describes :
    (text junk : Bytes) → NoNul text → Describes (words text) (parse_buffer (text ++ 0 ∷ junk))
parse_buffer-Describes text junk h = elim (token-cases (token (unlead text))) [
  | inl e ↦ empty-Describes text junk h e
  | inr (c, cs, e) ↦ word-Describes text junk c cs h e
]

-- A message of 1 to 1023 bytes is accepted, and what comes back is its command and the arguments
-- behind it: the words of its first line, separated by any number of spaces, of which the first
-- names the command and up to eight more are kept.
pub protocol_parse-words :
    (buffer : Bytes) (n : ℕ)
    → 0 < n
    → n < max_buffer_size
    → (msg : ParsedMessage) × (protocol_parse buffer (pos n) ≡ some msg)
      × (msg.type ≡ type_of (words (line (take n buffer))))
      × (strings_at msg.raw_buffer msg.args ≡ args_of (words (line (take n buffer))))
unfolding protocol_parse
protocol_parse-words buffer n lo hi =
    let message = take n buffer in
    let d = parse_buffer-Describes (line message) (junk message) (line-NoNul message) in
    (
      parse_buffer (cut_line (message ++ 0 ∷ [])),
      ground arith,
      rw (cut_line-line message) d.0,
      rw (cut_line-line message) d.1,
    )
