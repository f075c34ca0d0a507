-- ===== src/Protocol/Request.antt =====
-- Requests as the clients write them: words with one space between them and CRLF behind; and what
-- `protocol_parse` (server/src/protocol.c) makes of them.
pub mod Raw
use mathlib.Core.List.{append_assoc}
use iot_monitoring_system.Base.{
  ℕ, zero, suc, ◌<◌, ◌≡◌, ◌≢◌, refl, sym, ap, ◌∙◌, List, [], ◌∷◌, ◌++◌, some, Bytes, pos, All,
  length, take, drop, get_or, c_str, arith, length-append,
}
use iot_monitoring_system.Protocol.Strtok.{space}
use iot_monitoring_system.Protocol.Strtok.Words.{words, pieces, nonempty, strings_at}
use iot_monitoring_system.Protocol.Parse.{
  ParsedMessage, argc, arg, command_type, protocol_parse, max_args, max_buffer_size,
}
use iot_monitoring_system.Protocol.Parse.Line.{line}
use iot_monitoring_system.Protocol.Parse.Words.{protocol_parse-words, type_of, args_of}
use iot_monitoring_system.Protocol.Reply.{crlf}

-- A byte of a word: no NUL, space or line end.
abbrev pub IsWordByte : ℕ → Type 0
IsWordByte c = (c ≢ 0) × (c ≢ b' ') × (c ≢ b'\r') × (c ≢ b'\n')

-- A word is not empty.
abbrev pub IsWord : Bytes → Type 0
IsWord w = (w ≢ []) × All IsWordByte w

-- Some words, with a space in front of each.
abbrev pub tail_text : List Bytes → Bytes
tail_text [] = []
tail_text (w ∷ ws) = space ∷ (w ++ tail_text ws)

-- The text of a line, and the request.
abbrev pub line_text : Bytes → List Bytes → Bytes
line_text w ws = w ++ tail_text ws

abbrev pub request : Bytes → List Bytes → Bytes
request w ws = line_text w ws ++ crlf

line-word : (w rest : Bytes) → All IsWordByte w → line (w ++ rest) ≡ w ++ line rest
unfolding line
line-word [] rest h = refl
line-word (c ∷ cs) rest h = ground (arith, line-word cs rest h.1)

line-tail_text : (ws : List Bytes) → All IsWord ws → line (tail_text ws ++ crlf) ≡ tail_text ws
unfolding line
line-tail_text [] h = refl
line-tail_text (w ∷ ws) h = ap (◌∷◌ space) (
    ap line (append_assoc w (tail_text ws) crlf)
    ∙ line-word w (tail_text ws ++ crlf) h.0.1
    ∙ ap (◌++◌ w) (line-tail_text ws h.1))

pub line-request :
    (w : Bytes) (ws : List Bytes) → IsWord w → All IsWord ws → line (request w ws) ≡ line_text w ws
line-request w ws h hs =
    ap line (append_assoc w (tail_text ws) crlf)
    ∙ line-word w (tail_text ws ++ crlf) h.1
    ∙ ap (◌++◌ w) (line-tail_text ws hs)

pieces-word :
    (w : Bytes) (ws : List Bytes)
    → All IsWordByte w
    → All IsWord ws
    → pieces (line_text w ws) ≡ (w, ws)
unfolding pieces
pieces-word [] [] h hs = refl
pieces-word [] (v ∷ ws) h hs = rw (pieces-word v ws hs.0.1 hs.1)
pieces-word (c ∷ cs) ws h hs = ground (arith, pieces-word cs ws h.1 hs)

nonempty-words : (ws : List Bytes) → All IsWord ws → nonempty ws ≡ ws
nonempty-words [] h = refl
nonempty-words ([] ∷ ws) h = absurd (h.0.0 refl)
nonempty-words ((c ∷ cs) ∷ ws) h = ap (◌∷◌ (c ∷ cs)) (nonempty-words ws h.1)

words-line_text :
    (w : Bytes) (ws : List Bytes) → IsWord w → All IsWord ws → words (line_text w ws) ≡ w ∷ ws
unfolding words
words-line_text w ws h hs = rw (pieces-word w ws h.1 hs) (nonempty-words (w ∷ ws) (h, hs))

get_or-strings_at :
    (mem : Bytes) (os : List ℕ) (i : ℕ)
    → i < length os
    → c_str (drop (get_or os i 0) mem) ≡ get_or (strings_at mem os) i []
get_or-strings_at mem [] i h = absurd (omega arith)
get_or-strings_at mem (o ∷ os) zero h = refl
get_or-strings_at mem (o ∷ os) (suc i) h = get_or-strings_at mem os i (omega arith)

length-strings_at : (mem : Bytes) (os : List ℕ) → length (strings_at mem os) ≡ length os
length-strings_at mem [] = refl
length-strings_at mem (o ∷ os) = ap suc (length-strings_at mem os)

pub take-whole {ℓ} : {A : Type ℓ} (n : ℕ) (xs ys : List A) → length xs ≡ n → take n (xs ++ ys) ≡ xs
take-whole zero [] ys e = refl
take-whole zero (x ∷ xs) ys e = absurd (omega arith)
take-whole (suc n) [] ys e = absurd (omega arith)
take-whole (suc n) (x ∷ xs) ys e = ap (◌∷◌ x) (take-whole n xs ys (omega arith))

-- Parsing gives back the words of a request that fits the buffer, with any bytes behind it: the first
-- names the command and the next, up to eight, are the arguments.
pub protocol_parse-request :
    (w : Bytes) (ws : List Bytes) (junk : Bytes)
    → IsWord w
    → All IsWord ws
    → length (request w ws) < max_buffer_size
    → (msg : ParsedMessage) × (protocol_parse (request w ws ++ junk) (pos (length (request w ws)))
        ≡ some msg)
      × (msg.type ≡ command_type w)
      × (strings_at msg.raw_buffer msg.args ≡ take max_args ws)
protocol_parse-request w ws junk h hs fits =
    let text = request w ws in
    let n = length text in
    let (msg, parsed, type, args) =
      protocol_parse-words (text ++ junk) n (omega (arith, length-append (line_text w ws) crlf))
        fits in
    let found : words (line (take n (text ++ junk))) ≡ w ∷ ws =
      ap (λ t. words (line t)) (take-whole n text junk refl)
      ∙ ap words (line-request w ws h hs)
      ∙ words-line_text w ws h hs in
    (msg, parsed, type ∙ ap type_of found, args ∙ ap args_of found)

-- What a handler reads of a parsed message whose arguments are known.
pub arguments_of :
    (msg : ParsedMessage) (ws : List Bytes)
    → strings_at msg.raw_buffer msg.args ≡ ws
    → argc msg ≡ length ws
arguments_of msg ws e = sym (length-strings_at msg.raw_buffer msg.args) ∙ ap length e

pub arg-word :
    (msg : ParsedMessage) (ws : List Bytes) (i : ℕ)
    → strings_at msg.raw_buffer msg.args ≡ ws
    → i < length ws
    → arg msg i ≡ get_or ws i []
arg-word msg ws i e h =
    get_or-strings_at msg.raw_buffer msg.args i (omega (arith, arguments_of msg ws e))
    ∙ ap (λ (t : List Bytes). get_or t i []) e
