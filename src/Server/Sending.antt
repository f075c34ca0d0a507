-- ===== src/Server/Sending.antt =====
-- `send_complete_response` of server/src/server.c. `send` is a parameter: what the call makes of the
-- bytes that it is given, for the number of the call.
use mathlib.Core.List.{append_assoc}
use iot_monitoring_system.Base.{
  ℕ, zero, suc, ◌<◌, ◌≡◌, refl, ap, sym, subst, ◌∙◌, ◌⊎◌, inl, inr, [], ◌∷◌, ◌++◌, Bytes, ℤ, pos,
  length, take, drop, arith, length-drop, take-append-drop,
}

-- The result of the loop, and the bytes that went out. `out_of_fuel` belongs to the model only.
pub data Sent : Type 0 where
  complete failed out_of_fuel : Bytes → Sent

-- After `n` bytes went out of `response`, the rest of the loop.
abbrev pub continue : Bytes → Sent → Sent
continue chunk (complete b) = complete (chunk ++ b)
continue chunk (failed b) = failed (chunk ++ b)
continue chunk (out_of_fuel b) = out_of_fuel (chunk ++ b)

-- One round, on the result of `send`; `next n` is the loop after `n` bytes.
abbrev pub after_send : ℤ → Bytes → (ℕ → Sent) → Sent
after_send (pos (suc sent)) rest next = continue (take (suc sent) rest) (next (suc sent))
after_send _ rest next = failed []

-- The loop with `rest` = `response + total_sent` to go.
unfoldable pub send_loop : (ℕ → Bytes → ℤ) → ℕ → ℕ → Bytes → Sent
send_loop send zero call rest = out_of_fuel []
send_loop send (suc fuel) call [] = complete []
send_loop send (suc fuel) call (c ∷ cs) =
    let next = λ (n : ℕ). send_loop send fuel (suc call) (drop n (c ∷ cs)) in
    after_send (send call (c ∷ cs)) (c ∷ cs) next

-- Every round sends a byte at least, so one round more than the bytes of the response is enough.
unfoldable pub send_complete_response : (ℕ → Bytes → ℤ) → Bytes → Sent
unfolding send_loop
send_complete_response send response = send_loop send (suc (length response)) 0 response

-- The loop sent all of `rest`, or a call of `send` failed with a part of it left.
abbrev Delivered : Bytes → Sent → Type 0
Delivered rest r =
    (r ≡ complete rest)
    ⊎ ((sent : Bytes) × (c : ℕ) × (cs : Bytes) × (r ≡ failed sent) × (rest ≡ sent ++ c ∷ cs))

Delivered-continue :
    (chunk rest : Bytes) (r : Sent)
    → Delivered rest r
    → Delivered (chunk ++ rest) (continue chunk r)
Delivered-continue chunk rest r (inl e) = inl (rw e)
Delivered-continue chunk rest r (inr (sent, c, cs, e, split)) =
    inr (chunk ++ sent, c, cs, rw e, ap (◌++◌ chunk) split ∙ sym (append_assoc chunk sent (c ∷ cs)))

after_send-Delivered :
    (r : ℤ) (c : ℕ) (cs : Bytes) (next : ℕ → Sent)
    → ((n : ℕ) → Delivered (drop n cs) (next (suc n)))
    → Delivered (c ∷ cs) (after_send r (c ∷ cs) next)
after_send-Delivered (pos (suc sent)) c cs next k =
    subst (λ whole. Delivered whole (continue (take (suc sent) (c ∷ cs)) (next (suc sent))))
      (ap (◌∷◌ c) (take-append-drop sent cs))
      (Delivered-continue (c ∷ take sent cs) (drop sent cs) (next (suc sent)) (k sent))
after_send-Delivered _ c cs next k = inr ([], c, cs, refl, refl)

send_loop-Delivered :
    (send : ℕ → Bytes → ℤ) (fuel call : ℕ) (rest : Bytes)
    → length rest < fuel
    → Delivered rest (send_loop send fuel call rest)
unfolding send_loop
send_loop-Delivered send zero call rest h = absurd (omega arith)
send_loop-Delivered send (suc fuel) call [] h = inl refl
send_loop-Delivered send (suc fuel) call (c ∷ cs) h =
    after_send-Delivered (send call (c ∷ cs)) c cs _
      (λ n. send_loop-Delivered send fuel (suc call) (drop n cs) (omega (arith, length-drop n cs)))

-- Whatever `send` does, the loop ends, and either every byte of the response went out, in order, or
-- a call failed and what went out is the front of the response.
pub send_complete_response-Delivered :
    (send : ℕ → Bytes → ℤ) (response : Bytes)
    → (send_complete_response send response ≡ complete response)
      ⊎ ((sent : Bytes) × (c : ℕ) × (cs : Bytes) × (send_complete_response send response
            ≡ failed sent)
          × (response ≡ sent ++ c ∷ cs))
unfolding send_complete_response
send_complete_response-Delivered send response =
    send_loop-Delivered send (suc (length response)) 0 response (omega arith)
