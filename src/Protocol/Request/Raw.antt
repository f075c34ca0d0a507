-- ===== src/Protocol/Request/Raw.antt =====
-- What is left in `msg.raw_buffer` after `protocol_parse` (server/src/protocol.c), which
-- `handle_client` logs as the message.
use mathlib.Core.List.{append_assoc}
use iot_monitoring_system.Base.{
  ℕ, ◌<◌, ◌≡◌, refl, ap, ◌∙◌, List, [], ◌∷◌, ◌++◌, some, Bytes, c_str, c_str-append, pos, All,
  length, take, NoNul, NoNul-append, arith, length-append,
}
use iot_monitoring_system.Protocol.Strtok.{memory, space, lead, unlead, token, after_token, collect}
use iot_monitoring_system.Protocol.Strtok.Collect.{
  from, behind, strtok-some, collect-Found, cut-delimiter,
}
use iot_monitoring_system.Protocol.Parse.{
  ParsedMessage, parse_buffer, protocol_parse, max_args, max_buffer_size, cut_line,
}
use iot_monitoring_system.Protocol.Parse.Line.{junk, cut_line-line}
use iot_monitoring_system.Protocol.Parse.Words.{parse_buffer-some}
use iot_monitoring_system.Protocol.Reply.{crlf}
use iot_monitoring_system.Protocol.Request.{
  IsWordByte, IsWord, line_text, tail_text, request, line-request, take-whole,
}

pub NoNul-word : (w : Bytes) → All IsWordByte w → NoNul w
NoNul-word [] h = tt
NoNul-word (c ∷ cs) h = (h.0.0, NoNul-word cs h.1)

NoNul-tail_text : (ws : List Bytes) → All IsWord ws → NoNul (tail_text ws)
NoNul-tail_text [] h = tt
NoNul-tail_text (w ∷ ws) h =
    (omega arith, NoNul-append w (tail_text ws) (NoNul-word w h.0.1) (NoNul-tail_text ws h.1))

-- A word with a space behind it is the first token.
token-word :
    (w rest : Bytes)
    → All IsWordByte w
    → (token (w ++ space ∷ rest) ≡ w) × (after_token (w ++ space ∷ rest) ≡ space ∷ rest)
unfolding token after_token
token-word [] rest h = (refl, refl)
token-word (c ∷ cs) rest h = ground (arith, token-word cs rest h.1)

lead-word : (c : ℕ) (cs : Bytes) → IsWordByte c → (lead (c ∷ cs) ≡ []) × (unlead (c ∷ cs) ≡ c ∷ cs)
unfolding lead unlead
lead-word c cs h = ground arith

module _ (c : ℕ) (cs rest tail : Bytes) (h : All IsWordByte (c ∷ cs)) where
  abbrev text : Bytes
  text = (c ∷ cs) ++ space ∷ rest

  behind-word : behind [] text (c ∷ cs) tail ≡ from ((c ∷ cs) ++ 0 ∷ []) rest tail
  behind-word =
      let (no_lead, whole) = lead-word c (cs ++ space ∷ rest) h.0 in
      let (found, behind_it) = token-word (c ∷ cs) rest h in
      rw (no_lead, whole, behind_it) (cut-delimiter (c ∷ cs) space (rest ++ 0 ∷ tail) (omega arith))

  first-token : token (unlead text) ≡ c ∷ cs
  first-token = ap token (lead-word c (cs ++ space ∷ rest) h.0).1 ∙ (token-word (c ∷ cs) rest h).0

  parse_buffer-raw : NoNul rest → c_str (parse_buffer (text ++ 0 ∷ tail)).raw_buffer ≡ c ∷ cs
  parse_buffer-raw hr =
      let parsed =
        parse_buffer-some (text ++ 0 ∷ tail) _ _ (strtok-some [] text tail c cs first-token) in
      let kept = (collect-Found max_args ((c ∷ cs) ++ 0 ∷ []) rest tail hr).keeps in
      ap (λ (m : ParsedMessage). c_str m.raw_buffer) parsed
      ∙ ap (λ cur. c_str (memory (collect max_args cur).1)) behind-word
      ∙ ap c_str (kept ∙ append_assoc (c ∷ cs) (0 ∷ []) _)
      ∙ c_str-append (c ∷ cs) _ (NoNul-word (c ∷ cs) h)

protocol_parse-parse_buffer :
    (buffer : Bytes) (n : ℕ)
    → 0 < n
    → n < max_buffer_size
    → protocol_parse buffer (pos n) ≡ some (parse_buffer (cut_line (take n buffer ++ 0 ∷ [])))
unfolding protocol_parse
protocol_parse-parse_buffer buffer n lo hi = ground arith

-- After a request of two words or more is parsed, the string in `raw_buffer` is its first word: the
-- arguments are cut off.
pub raw_buffer-request :
    (w v : Bytes) (ws : List Bytes) (behind_it : Bytes)
    → IsWord w
    → All IsWord (v ∷ ws)
    → length (request w (v ∷ ws)) < max_buffer_size
    → (msg : ParsedMessage) × (protocol_parse
          (request w (v ∷ ws) ++ behind_it)
          (pos (length (request w (v ∷ ws))))
        ≡ some msg)
      × (c_str msg.raw_buffer ≡ w)
raw_buffer-request [] v ws behind_it h hs fits = absurd (h.0 refl)
raw_buffer-request (c ∷ cs) v ws behind_it h hs fits =
    let bytes = request (c ∷ cs) (v ∷ ws) in
    let n = length bytes in
    let read : take n (bytes ++ behind_it) ≡ bytes = take-whole n bytes behind_it refl in
    let rest = v ++ tail_text ws in
    let cut : cut_line (take n (bytes ++ behind_it) ++ 0 ∷ [])
        ≡ line_text (c ∷ cs) (v ∷ ws) ++ 0 ∷ junk bytes =
      ap (λ t. cut_line (t ++ 0 ∷ [])) read
      ∙ cut_line-line bytes
      ∙ ap (λ t. t ++ 0 ∷ junk bytes) (line-request (c ∷ cs) (v ∷ ws) h hs) in
    (
      parse_buffer (cut_line (take n (bytes ++ behind_it) ++ 0 ∷ [])),
      protocol_parse-parse_buffer (bytes ++ behind_it) n
          (omega (arith, length-append (line_text (c ∷ cs) (v ∷ ws)) crlf)) fits,
      ap (λ b. c_str (parse_buffer b).raw_buffer) cut
          ∙ parse_buffer-raw c cs rest (junk bytes) h.1
              (NoNul-append v (tail_text ws) (NoNul-word v hs.0.1) (NoNul-tail_text ws hs.1)),
    )
