-- ===== src/Protocol/Strtok/Words.antt =====
-- What the calls of `strtok` find: the words of the line, in order.
use iot_monitoring_system.Base.{
  ℕ, ◌≡◌, refl, List, [], ◌∷◌, ◌++◌, arith, Bytes, take, drop, NoNul, c_str, ◌==◌, if◌then◌else◌,
}
use iot_monitoring_system.Protocol.Strtok.{
  Cursor, memory, space, lead, unlead, token, after_token, deliver, strtok,
}

-- A text split at every space.
unfoldable pub pieces : Bytes → Bytes × List Bytes
pieces [] = ([], [])
pieces (c ∷ cs) = let (w, ws) = pieces cs in if c == space then ([], w ∷ ws) else (c ∷ w, ws)

abbrev pub nonempty : List Bytes → List Bytes
nonempty [] = []
nonempty ([] ∷ ws) = nonempty ws
nonempty ((c ∷ cs) ∷ ws) = (c ∷ cs) ∷ nonempty ws

-- The words of a text: its pieces between spaces, without the empty ones.
unfoldable pub words : Bytes → List Bytes
unfolding pieces
words text = let (w, ws) = pieces text in nonempty (w ∷ ws)

pub words-unlead : (text : Bytes) → words (unlead text) ≡ words text
unfolding words unlead
words-unlead [] = refl
words-unlead (c ∷ cs) = ground (arith, words-unlead cs)

pub NoNul-unlead : (text : Bytes) → NoNul text → NoNul (unlead text)
unfolding unlead
NoNul-unlead [] h = tt
NoNul-unlead (c ∷ cs) h = ground (arith, NoNul-unlead cs)

lead-append : (text junk : Bytes) → lead (text ++ 0 ∷ junk) ≡ lead text
unfolding lead
lead-append [] junk = refl
lead-append (c ∷ cs) junk = ground (arith, lead-append cs junk)

unlead-append : (text junk : Bytes) → unlead (text ++ 0 ∷ junk) ≡ unlead text ++ 0 ∷ junk
unfolding unlead
unlead-append [] junk = refl
unlead-append (c ∷ cs) junk = ground (arith, unlead-append cs junk)

token-append : (text junk : Bytes) → token (text ++ 0 ∷ junk) ≡ token text
unfolding token
token-append [] junk = refl
token-append (c ∷ cs) junk = ground (arith, token-append cs junk)

after_token-append :
    (text junk : Bytes) → after_token (text ++ 0 ∷ junk) ≡ after_token text ++ 0 ∷ junk
unfolding after_token
after_token-append [] junk = refl
after_token-append (c ∷ cs) junk = ground (arith, after_token-append cs junk)

pub lead-append-unlead : (text : Bytes) → lead text ++ unlead text ≡ text
unfolding lead unlead
lead-append-unlead [] = refl
lead-append-unlead (c ∷ cs) = ground (arith, lead-append-unlead cs)

pub NoNul-token : (text : Bytes) → NoNul text → NoNul (token text)
unfolding token
NoNul-token [] h = tt
NoNul-token (c ∷ cs) h = ground (arith, NoNul-token cs)

pub NoNul-after_token : (text : Bytes) → NoNul text → NoNul (after_token text)
unfolding after_token
NoNul-after_token [] h = tt
NoNul-after_token (c ∷ cs) h = ground (arith, NoNul-after_token cs)

abbrev pub rest_pieces : Bytes → List Bytes
rest_pieces [] = []
rest_pieces (d ∷ ds) = let (w, ws) = pieces ds in w ∷ ws

pieces-token :
    (text : Bytes) → NoNul text → pieces text ≡ (token text, rest_pieces (after_token text))
unfolding pieces token after_token
pieces-token [] h = refl
pieces-token (c ∷ cs) h = ground (arith, pieces-token cs)

pub words-token :
    (text : Bytes)
    → NoNul text
    → words text ≡ nonempty (token text ∷ rest_pieces (after_token text))
unfolding words
words-token text h = rw (pieces-token text h)

-- A text that starts behind its leading spaces and has an empty token is empty.
pub words-nil : (text : Bytes) → NoNul text → token (unlead text) ≡ [] → words text ≡ []
unfolding words pieces token unlead
words-nil [] h e = refl
words-nil (c ∷ cs) h e = ground (arith, words-nil cs)

-- The strings at the given offsets of an array.
abbrev pub strings_at : Bytes → List ℕ → List Bytes
strings_at mem [] = []
strings_at mem (o ∷ os) = c_str (drop o mem) ∷ strings_at mem os

-- What `collect` returns, started on a text with NUL and `junk` behind it.
pub record Found (n : ℕ) (before text junk : Bytes) (result : List ℕ × Cursor) : Type 0 where
  pub values : strings_at (memory result.1) result.0 ≡ take n (words text)
  pub later : Bytes
  pub keeps : memory result.1 ≡ before ++ later
  pub idle : words text ≡ [] → memory result.1 ≡ before ++ (text ++ 0 ∷ junk)

pub strtok-text :
    (before text junk : Bytes)
    → strtok (record { before = before; after = text ++ 0 ∷ junk })
      ≡ deliver (before ++ lead text) (token (unlead text)) (after_token (unlead text) ++ 0 ∷ junk)
unfolding strtok
strtok-text before text junk = rw (
  lead-append text junk,
  unlead-append text junk,
  token-append (unlead text) junk,
  after_token-append (unlead text) junk,
)
