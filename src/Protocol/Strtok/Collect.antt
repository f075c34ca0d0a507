-- ===== src/Protocol/Strtok/Collect.antt =====
-- The loop of `protocol_parse` (server/src/protocol.c) over `strtok`, and the words of the line.
use mathlib.Core.List.{append_assoc}
use iot_monitoring_system.Base.{
  ℕ, zero, suc, ◌≡◌, refl, sym, ap, ap₂, subst, ◌∙◌, ◌≢◌, List, [], ◌∷◌, ◌++◌, none, some, arith,
  Bytes, length, take, drop, take-nil, NoNul, c_str, c_str-append, drop-append, ◌⊎◌, inl, inr,
}
use iot_monitoring_system.Protocol.Strtok.{
  Cursor, memory, lead, unlead, token, after_token, cut, deliver, strtok, collect,
}
use iot_monitoring_system.Protocol.Strtok.Words.{
  words, nonempty, rest_pieces, strings_at, Found, words-unlead, words-token, words-nil,
  strtok-text, NoNul-unlead, NoNul-token, NoNul-after_token,
}

-- The array behind a call of `strtok` keeps all that stood before the end of the token, and holds
-- a NUL there.
memory-cut :
    (done rest junk : Bytes)
    → NoNul rest
    → (later : Bytes) × (memory (cut done (rest ++ 0 ∷ junk)) ≡ done ++ 0 ∷ later)
unfolding cut
memory-cut done [] junk h = (junk, refl)
memory-cut done (d ∷ ds) junk h =
    (ds ++ 0 ∷ junk, ground (arith, append_assoc done (0 ∷ []) (ds ++ 0 ∷ junk)))

string_at :
    (mem start w later : Bytes)
    → NoNul w
    → mem ≡ (start ++ w) ++ 0 ∷ later
    → c_str (drop (length start) mem) ≡ w
string_at mem start w later h e =
    rw (e, append_assoc start w (0 ∷ later), drop-append start (w ++ 0 ∷ later) (length start) refl)
      (c_str-append w later h)

pub cut-delimiter :
    (done : Bytes) (d : ℕ) (ds : Bytes)
    → d ≢ 0
    → cut done (d ∷ ds) ≡ record { before = done ++ 0 ∷ []; after = ds }
unfolding cut
cut-delimiter done d ds h = ground arith

-- What the loop returns behind the token `w`, with `r` left of the line.
abbrev Delivers : ℕ → Bytes → Bytes → Bytes → List ℕ × Cursor → Type 0
Delivers n start w r (os, end) =
    (strings_at (memory end) (length start ∷ os) ≡ w ∷ take n (nonempty (rest_pieces r)))
    × (later : Bytes) × (memory end ≡ start ++ later)

module _ (n : ℕ)
    (ih : (before text junk : Bytes)
      → NoNul text
      → Found n before text junk
          (collect n (record { before = before; after = text ++ 0 ∷ junk }))) where
  collect-Delivers :
      (start w r junk : Bytes)
      → NoNul w
      → NoNul r
      → Delivers n start w r (collect n (cut (start ++ w) (r ++ 0 ∷ junk)))
  unfolding cut words
  collect-Delivers start w [] junk hw hr =
      let f = ih (start ++ w) [] junk tt in
      let kept : memory (collect n (cut (start ++ w) (0 ∷ junk))).1 ≡ (start ++ w) ++ 0 ∷ junk =
        f.idle refl in
      (
        ap₂ ◌∷◌ (string_at _ start w junk hw kept) f.values,
        w ++ 0 ∷ junk,
        kept ∙ append_assoc start w (0 ∷ junk),
      )
  collect-Delivers start w (d ∷ ds) junk hw hr =
      let f = ih ((start ++ w) ++ 0 ∷ []) ds junk hr.1 in
      let kept = f.keeps ∙ append_assoc (start ++ w) (0 ∷ []) f.later in
      subst (λ cur. Delivers n start w (d ∷ ds) (collect n cur))
        (sym (cut-delimiter (start ++ w) d (ds ++ 0 ∷ junk) hr.0))
        (
          ap₂ ◌∷◌ (string_at _ start w f.later hw kept) f.values,
          w ++ 0 ∷ f.later,
          kept ∙ append_assoc start w (0 ∷ f.later),
        )

words-deliver :
    (text : Bytes)
    → NoNul text
    → words text ≡ nonempty (token (unlead text) ∷ rest_pieces (after_token (unlead text)))
words-deliver text h = sym (words-unlead text) ∙ words-token (unlead text) (NoNul-unlead text h)

pub collect-none : (n : ℕ) (cur : Cursor) → strtok cur ≡ none → collect n cur ≡ ([], cur)
unfolding collect
collect-none zero cur e = rw (e, collect)
collect-none (suc n) cur e = rw (e, collect)

pub collect-suc :
    (n : ℕ) (cur : Cursor) {o : ℕ} {next : Cursor}
    → strtok cur ≡ some (o, next)
    → collect (suc n) cur ≡ (o ∷ (collect n next).0, (collect n next).1)
unfolding collect
collect-suc n cur e = rw (e, collect)

pub collect-zero :
    (cur : Cursor) {o : ℕ} {next : Cursor}
    → strtok cur ≡ some (o, next)
    → collect 0 cur ≡ ([], next)
unfolding collect
collect-zero cur e = rw (e, collect)

abbrev pub from : Bytes → Bytes → Bytes → Cursor
from before text junk = record { before = before; after = text ++ 0 ∷ junk }

pub strtok-none :
    (before text junk : Bytes) → token (unlead text) ≡ [] → strtok (from before text junk) ≡ none
unfolding deliver
strtok-none before text junk e = strtok-text before text junk ∙ rw e

Found-none :
    (n : ℕ) (before text junk : Bytes)
    → NoNul text
    → token (unlead text) ≡ []
    → Found n before text junk (collect n (from before text junk))
Found-none n before text junk h e =
    rw (collect-none n (from before text junk) (strtok-none before text junk e)) (record {
      values = rw (words-nil text h e) (sym (take-nil n));
      later = text ++ 0 ∷ junk;
      keeps = refl;
      idle = λ _. refl;
    })

-- The cursor behind a token `w` of the text.
abbrev pub behind : Bytes → Bytes → Bytes → Bytes → Cursor
behind before text w junk = cut ((before ++ lead text) ++ w) (after_token (unlead text) ++ 0 ∷ junk)

pub strtok-some :
    (before text junk : Bytes) (c : ℕ) (cs : Bytes)
    → token (unlead text) ≡ c ∷ cs
    → strtok (from before text junk)
      ≡ some (length (before ++ lead text), behind before text (c ∷ cs) junk)
unfolding deliver
strtok-some before text junk c cs e = strtok-text before text junk ∙ rw e

Found-zero :
    (before text junk : Bytes) (c : ℕ) (cs : Bytes)
    → NoNul text
    → token (unlead text) ≡ c ∷ cs
    → Found 0 before text junk (collect 0 (from before text junk))
Found-zero before text junk c cs h e =
    let (later, kept) =
      memory-cut ((before ++ lead text) ++ c ∷ cs) (after_token (unlead text)) junk
        (NoNul-after_token (unlead text) (NoNul-unlead text h)) in
    rw (collect-zero (from before text junk) (strtok-some before text junk c cs e)) (record {
      values = refl;
      later = lead text ++ (c ∷ cs ++ 0 ∷ later);
      keeps = kept ∙ simp append_assoc;
      idle = λ no. cc (words-deliver text h, e);
    })

Found-suc :
    (n : ℕ) (before text junk : Bytes) (c : ℕ) (cs : Bytes)
    → ((b t j : Bytes) → NoNul t → Found n b t j (collect n (from b t j)))
    → NoNul text
    → token (unlead text) ≡ c ∷ cs
    → Found (suc n) before text junk (collect (suc n) (from before text junk))
Found-suc n before text junk c cs ih h e =
    let hu = NoNul-unlead text h in
    let (found, later, kept) =
      collect-Delivers n ih (before ++ lead text) (c ∷ cs) (after_token (unlead text)) junk
        (subst NoNul e (NoNul-token (unlead text) hu)) (NoNul-after_token (unlead text) hu) in
    rw (collect-suc n (from before text junk) (strtok-some before text junk c cs e)) (record {
      values =
          found
          ∙ sym (
              ap (take (suc n)) (
                words-deliver text h
                ∙ ap (λ t. nonempty (t ∷ rest_pieces (after_token (unlead text)))) e));
      later = lead text ++ later;
      keeps = kept ∙ append_assoc before (lead text) later;
      idle = λ no. cc (words-deliver text h, e);
    })

pub token-cases : (w : Bytes) → (w ≡ []) ⊎ ((c : ℕ) × (cs : Bytes) × (w ≡ c ∷ cs))
token-cases [] = inl refl
token-cases (c ∷ cs) = inr (c, cs, refl)

-- The loop from any cursor: with `n` places free it finds the first `n` words of the text.
pub collect-Found :
    (n : ℕ) (before text junk : Bytes)
    → NoNul text
    → Found n before text junk (collect n (from before text junk))
collect-Found zero before text junk h = elim (token-cases (token (unlead text))) [
  | inl e ↦ Found-none 0 before text junk h e
  | inr (c, cs, e) ↦ Found-zero before text junk c cs h e
]
collect-Found (suc n) before text junk h = elim (token-cases (token (unlead text))) [
  | inl e ↦ Found-none (suc n) before text junk h e
  | inr (c, cs, e) ↦ Found-suc n before text junk c cs (collect-Found n) h e
]

module _ (before text junk : Bytes) (c : ℕ) (cs : Bytes) (h : NoNul text) where
  -- The next token as a string of the array, when the call of `strtok` returns.
  pub strtok-string :
      token (unlead text) ≡ c ∷ cs
      → c_str (drop (length (before ++ lead text)) (memory (behind before text (c ∷ cs) junk)))
        ≡ c ∷ cs
  strtok-string e =
      let (later, kept) =
        memory-cut ((before ++ lead text) ++ c ∷ cs) (after_token (unlead text)) junk
          (NoNul-after_token (unlead text) (NoNul-unlead text h)) in
      string_at _ (before ++ lead text) (c ∷ cs) later
        (subst NoNul e (NoNul-token (unlead text) (NoNul-unlead text h))) kept

  pub words-cons :
      token (unlead text) ≡ c ∷ cs
      → words text ≡ (c ∷ cs) ∷ nonempty (rest_pieces (after_token (unlead text)))
  words-cons e =
      words-deliver text h ∙ ap (λ t. nonempty (t ∷ rest_pieces (after_token (unlead text)))) e
