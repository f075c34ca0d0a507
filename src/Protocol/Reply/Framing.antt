-- ===== src/Protocol/Reply/Framing.antt =====
-- When a response fits `resp_buf`, and what its end looks like when it does not.
use mathlib.Core.List.{append_assoc}
use native.Mathlib.Decide.{dec_le}
use iot_monitoring_system.Base.{
  ℕ, zero, suc, ◌+◌, ◌-◌, ◌≤◌, ◌<◌, ◌≡◌, ◌≢◌, refl, ap, sym, subst, ◌⊎◌, inl, inr, snprintf-whole,
  List, [], ◌∷◌, ◌++◌, Option, some, Bytes, codes, snprintf, length, take, All, All-append,
  All-take, length-append, length-snprintf, arith,
}
use iot_monitoring_system.Protocol.Reply.{
  resp_size, crlf, protocol_build_ok, protocol_build_error, protocol_build_alert,
  protocol_build_sensors_list, protocol_build_alerts_list, protocol_build_status,
}

fits : (text : Bytes) → length (snprintf resp_size text) < resp_size
fits text = length-snprintf resp_size text (omega arith)

-- Every response fits its buffer with the terminating NUL, whatever the arguments.
pub responses_fit :
    (a b : Option Bytes) (s t : Bytes)
    → (length (protocol_build_ok a) < resp_size)
      × (length (protocol_build_error a b) < resp_size)
      × (length (protocol_build_alert s t) < resp_size)
      × (length (protocol_build_sensors_list a) < resp_size)
      × (length (protocol_build_alerts_list a) < resp_size)
      × (length (protocol_build_status a) < resp_size)
unfolding protocol_build_ok protocol_build_error protocol_build_alert protocol_build_sensors_list
    protocol_build_alerts_list protocol_build_status
responses_fit a b s t = (fits _, fits _, fits _, fits _, fits _, fits _)

abbrev pub NoLineFeed : Bytes → Type 0
NoLineFeed = All (λ c. c ≢ b'\n')

take-append_of_le {ℓ} :
    {A : Type ℓ} (n : ℕ) (xs ys : List A) → n ≤ length xs → take n (xs ++ ys) ≡ take n xs
take-append_of_le zero xs ys h = refl
take-append_of_le (suc n) [] ys h = absurd (omega arith)
take-append_of_le (suc n) (x ∷ xs) ys h = ap (◌∷◌ x) (take-append_of_le n xs ys (omega arith))

-- A formatted response whose text is too long by one byte or more loses its line feed.
pub snprintf-NoLineFeed :
    (size : ℕ) (text : Bytes)
    → NoLineFeed text
    → size ≤ length text + 2
    → NoLineFeed (snprintf size (text ++ crlf))
unfolding snprintf
snprintf-NoLineFeed size text h long =
    subst NoLineFeed (ap (take (size - 1)) (append_assoc text (b'\r' ∷ []) (b'\n' ∷ []))) (
      subst NoLineFeed
        (sym (
          take-append_of_le (size - 1) (text ++ b'\r' ∷ []) (b'\n' ∷ [])
            (omega (arith, length-append text (b'\r' ∷ [])))))
        (All-take _ (size - 1) (text ++ b'\r' ∷ [])
          (All-append _ text (b'\r' ∷ []) h (omega arith))))

-- For a list without a line feed, the SENSORS response carries the whole list and its line end when
-- the list has at most 501 bytes. From 502 bytes on it holds no line feed at all.
pub sensors_list_framing :
    (list : Bytes)
    → NoLineFeed list
    → (length list ≤ 501)
        × (protocol_build_sensors_list (some list) ≡ codes "SENSORS " ++ (list ++ crlf))
      ⊎ (502 ≤ length list) × NoLineFeed (protocol_build_sensors_list (some list))
unfolding protocol_build_sensors_list
sensors_list_framing list h = elim (dec_le (length list) 501) [
  | yes short ↦ inl (short, snprintf-whole resp_size _ (omega (arith, length-append list crlf)))
  | no long ↦ inr (
    omega arith,
    snprintf-NoLineFeed resp_size (codes "SENSORS " ++ list) (grind arith) (omega arith),
  )
]
