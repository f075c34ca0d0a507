-- ===== src/Protocol/Interleaving/Race.antt =====
-- Two threads of server/src/server.c in `protocol_parse` (server/src/protocol.c) at once.
use iot_monitoring_system.Base.{
  ℕ, ◌≡◌, ◌≢◌, refl, sym, ap, ◌∙◌, subst, List, [], ◌∷◌, ◌++◌, some, Bytes, inl, inr, drop, length,
  c_str, NoNul,
}
use iot_monitoring_system.Protocol.Strtok.{
  Cursor, memory, strtok, cut, lead, unlead, token, after_token,
}
use iot_monitoring_system.Protocol.Strtok.Words.{
  words, nonempty, rest_pieces, words-nil, NoNul-unlead, NoNul-after_token,
}
use iot_monitoring_system.Protocol.Strtok.Collect.{
  from, behind, strtok-some, strtok-string, words-cons, token-cases, cut-delimiter,
}
use iot_monitoring_system.Protocol.Parse.{CommandType, command_type}
use iot_monitoring_system.Protocol.Interleaving.{
  Place, looping, Threads, string_of, cursor_at, begin_parse, turn_parse, begun, update-same,
  update-other, strtok_from-some, cursor-begun, begin_parse-some,
}

-- What a call of `strtok` returns in front of the word `w`, and where it stops.
abbrev Cuts : Bytes → Bytes → Bytes → Bytes → ℕ → Cursor → Type 0
Cuts before text junk w o cur =
    (strtok (from before text junk) ≡ some (o, cur))
    × (c_str (drop o (memory cur)) ≡ w)
    × (cur ≡ behind before text w junk)
    × (token (unlead text) ≡ w)

strtok-Cuts :
    (before text junk w : Bytes) (ws : List Bytes)
    → NoNul text
    → words text ≡ w ∷ ws
    → (o : ℕ) × (cur : Cursor) × Cuts before text junk w o cur
      × (nonempty (rest_pieces (after_token (unlead text))) ≡ ws)
strtok-Cuts before text junk w ws h e = elim (token-cases (token (unlead text))) [
  | inl empty ↦ absurd (cc (words-nil text h empty, e))
  | inr (c, cs, t) ↦
      let split = words-cons before text junk c cs h t in
      let first : c ∷ cs ≡ w = cc (split, e) in
      (
        length (before ++ lead text),
        behind before text (c ∷ cs) junk,
        (
          strtok-some before text junk c cs t,
          strtok-string before text junk c cs h t ∙ first,
          ap (λ v. behind before text v junk) first,
          t ∙ first,
        ),
        cc (split, e),
      )
]

-- Behind a word with another word behind it, the cursor stands in front of a text again.
behind-from :
    (before text junk w v : Bytes) (ws : List Bytes)
    → NoNul text
    → nonempty (rest_pieces (after_token (unlead text))) ≡ v ∷ ws
    → (b : Bytes) × (rest : Bytes) × NoNul rest
      × (words rest ≡ v ∷ ws)
      × (behind before text w junk ≡ from b rest junk)
unfolding words
behind-from before text junk w v ws h e = elim (token-cases (after_token (unlead text))) [
  | inl empty ↦ absurd (cc (empty, e))
  | inr (d, ds, split) ↦
      let clean : NoNul (d ∷ ds) =
        subst NoNul split (NoNul-after_token (unlead text) (NoNul-unlead text h)) in
      (
        ((before ++ lead text) ++ w) ++ 0 ∷ [],
        ds,
        clean.1,
        sym (ap (λ t. nonempty (rest_pieces t)) split) ∙ e,
        ap (λ t. cut ((before ++ lead text) ++ w) (t ++ 0 ∷ junk)) split
            ∙ cut-delimiter ((before ++ lead text) ++ w) d (ds ++ 0 ∷ junk) clean.0,
      )
]

turn_parse-some :
    (i : ℕ) (type : CommandType) (s : Threads) (o : ℕ) (cur : Cursor)
    → s.pc i ≡ looping type []
    → strtok (cursor_at s s.saved) ≡ some (o, cur)
    → let t = turn_parse i s in
      let p : Place = record { thread = s.saved.thread; offset = o } in
      (t.pc i ≡ looping type (p ∷ [])) × (string_of t p ≡ c_str (drop o (memory cur)))
unfolding turn_parse
turn_parse-some i type s o cur at_loop e =
    let p : Place = record { thread = s.saved.thread; offset = o } in
    rw (at_loop, strtok_from-some s.saved s e, turn_parse)
      (
        update-same s.pc i (looping type (p ∷ [])),
        ap (λ m. c_str (drop o m)) (update-same s.raw_buffer s.saved.thread (memory cur)),
      )

-- If thread `j` begins to parse its message after thread `i` has begun and before `i` goes on, the
-- first argument that `i` gets is a pointer into the message of `j`, to its second word: for any
-- two threads and any two messages, of at least one and two words.
pub strtok_race :
    (i j : ℕ) (s : Threads) (mine theirs junk junk' w v w' : Bytes) (ws ws' : List Bytes)
    → i ≢ j
    → NoNul mine
    → NoNul theirs
    → words mine ≡ w' ∷ ws'
    → words theirs ≡ w ∷ v ∷ ws
    → let t =
        turn_parse i (begin_parse j (theirs ++ 0 ∷ junk) (begin_parse i (mine ++ 0 ∷ junk') s)) in
      (p : Place) × (t.pc i ≡ looping (command_type w') (p ∷ []))
      × (p.thread ≡ j)
      × (string_of t p ≡ v)
strtok_race i j s mine theirs junk junk' w v w' ws ws' differ clean clean' e' e =
    let (o₁, cur₁, (call₁, word₁, _, _), _) = strtok-Cuts [] mine junk' w' ws' clean e' in
    let (o₂, cur₂, (call₂, word₂, at₂, _), more) = strtok-Cuts [] theirs junk w (v ∷ ws) clean' e in
    let (b, rest, clean₃, e₃, stands) = behind-from [] theirs junk w v ws clean' more in
    let (o₃, cur₃, (call₃, word₃, _, _), _) = strtok-Cuts b rest junk v ws clean₃ e₃ in
    let s₁ = begun i (mine ++ 0 ∷ junk') w' cur₁ s in
    let s₂ = begun j (theirs ++ 0 ∷ junk) w cur₂ s₁ in
    let cursor : cursor_at s₂ s₂.saved ≡ cur₂ = cursor-begun j (theirs ++ 0 ∷ junk) w cur₂ s₁ in
    let loop : s₂.pc i ≡ looping (command_type w') [] =
      update-other s₁.pc j i (looping (command_type w) []) (λ same. differ (sym same))
      ∙ update-same s.pc i (looping (command_type w') []) in
    let (pc, string) =
      turn_parse-some i (command_type w') s₂ o₃ cur₃ loop
        (ap strtok (cursor ∙ at₂ ∙ stands) ∙ call₃) in
    rw
      (
        begin_parse-some i (mine ++ 0 ∷ junk') w' s o₁ cur₁ call₁ word₁,
        begin_parse-some j (theirs ++ 0 ∷ junk) w s₁ o₂ cur₂ call₂ word₂,
      )
      (record { thread = j; offset = o₃ }, pc, refl, string ∙ word₃)
