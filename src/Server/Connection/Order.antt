-- ===== src/Server/Connection/Order.antt =====
-- The responses of one connection (server/src/server.c), in their order. Bytes that one call of
-- `recv` returns are one message to the code, however many lines they have.
use iot_monitoring_system.Base.{
  ℕ, suc, ◌≡◌, ◌⊎◌, refl, ap, List, [], ◌∷◌, ◌++◌, map, Bytes, pos, Doubles, inl, inr,
}
use iot_monitoring_system.Server.Dispatch.{Client, handle_message}
use iot_monitoring_system.Server.Connection.{Incoming, Turn, turn, receive_loop}
use iot_monitoring_system.Server.Sending.{
  Sent, complete, failed, send_complete_response, send_complete_response-Delivered,
}

module _ {F : Type 0} ⦃d : Doubles F⦄ (client : Client) where
  abbrev pub response_to : Incoming F → Bytes
  response_to i = (handle_message i.now i.net client i.buffer (pos (suc i.count)) i.state).response

  abbrev pub whole : List (Incoming F) → List Sent
  whole is = map (λ i. complete (response_to i)) is

  -- What `send_complete_response` sends in the loop, one result for each call of `recv`.
  abbrev pub sent_by : List (Incoming F) → List Sent
  sent_by is = map (λ (t : Turn F). t.sent) (receive_loop client is)

  -- The bytes of some calls of `recv` were answered, and the answer to the next was cut off.
  abbrev pub CutOff : List (Incoming F) → List Sent → Type 0
  CutOff is sent =
      (done : List (Incoming F)) × (i : Incoming F) × (rest : List (Incoming F)) × (front : Bytes)
      × (c : ℕ) × (cs : Bytes) × (is ≡ done ++ i ∷ rest)
      × (response_to i ≡ front ++ c ∷ cs)
      × (sent ≡ whole done ++ failed front ∷ [])

  CutOff-cons :
      (i : Incoming F) {is : List (Incoming F)} {sent : List Sent}
      → CutOff is sent
      → CutOff (i ∷ is) (complete (response_to i) ∷ sent)
  CutOff-cons i (done, j, rest, front, c, cs, split, cut, e) = (
    i ∷ done,
    j,
    rest,
    front,
    c,
    cs,
    ap (◌∷◌ i) split,
    cut,
    ap (◌∷◌ (complete (response_to i))) e,
  )

  sent_by-complete :
      (i : Incoming F) (is : List (Incoming F))
      → send_complete_response i.send (response_to i) ≡ complete (response_to i)
      → sent_by (i ∷ is) ≡ complete (response_to i) ∷ sent_by is
  unfolding receive_loop turn
  sent_by-complete i is e = rw e

  sent_by-failed :
      (i : Incoming F) (is : List (Incoming F)) (front : Bytes)
      → send_complete_response i.send (response_to i) ≡ failed front
      → sent_by (i ∷ is) ≡ failed front ∷ []
  unfolding receive_loop turn
  sent_by-failed i is front e = rw e

  -- Of the responses that the thread of a connection itself sends, the alerts of `broadcast_alert`
  -- not among them: either each call of `recv` that returned bytes is answered by one whole response
  -- to these bytes, in the order of the calls; or this holds up to one call whose response was cut
  -- off, and the thread sends no response after the bytes of it that went out.
  pub receive_loop_order :
      (is : List (Incoming F)) → (sent_by is ≡ whole is) ⊎ CutOff is (sent_by is)
  unfolding receive_loop
  receive_loop_order [] = inl refl
  receive_loop_order (i ∷ is) = elim (send_complete_response-Delivered i.send (response_to i)) [
    | inl e ↦ rw (sent_by-complete i is e) (elim (receive_loop_order is) [
      | inl same ↦ inl (ap (◌∷◌ (complete (response_to i))) same)
      | inr cut ↦ inr (CutOff-cons i cut)
    ])
    | inr (front, c, cs, e, cut) ↦
        rw (sent_by-failed i is front e) (inr ([], i, is, front, c, cs, refl, cut, refl))
  ]
