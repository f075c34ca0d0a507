-- ===== src/Main/Port/Numeral.antt =====
-- Which arguments `main` (server/src/main.c) takes for a port.
use mathlib.Core.List.{append-nil}
use iot_monitoring_system.Base.{
  ℕ, ◌≤◌, ◌≡◌, ◌≢◌, ◌↔◌, ◌⊎◌, refl, sym, subst, ap, ◌∙◌, [], ◌∷◌, ◌++◌, none, some, true, false,
  Bytes, ◌==◌, if◌then◌else◌, All, arith, number_from, IsDigit, Bool-cases, inl, inr,
}
use iot_monitoring_system.Main.Port.{
  is_space, skip_spaces, span_digits, clamp, converted, accept, after_sign, signed, strtol, port_of,
}

-- Some white space, an optional "+", and one or more digits that spell the number.
pub record Spells (text : Bytes) (p : ℕ) : Type 0 where
  pub space : Bytes
  pub sign : Bytes
  pub digits : Bytes
  pub split : text ≡ space ++ (sign ++ digits)
  pub is_white : All (λ c. is_space c ≡ true) space
  pub is_sign : (sign ≡ []) ⊎ (sign ≡ b'+' ∷ [])
  pub are_digits : All IsDigit digits
  pub some_digit : digits ≢ []
  pub value : number_from 0 digits ≡ p

span_digits-digits : (ds : Bytes) → All IsDigit ds → span_digits ds ≡ (ds, [])
unfolding span_digits
span_digits-digits [] h = refl
span_digits-digits (c ∷ cs) h = ground (arith, span_digits-digits cs h.1)

skip_spaces-append :
    (ws text : Bytes)
    → All (λ c. is_space c ≡ true) ws
    → skip_spaces (ws ++ text) ≡ skip_spaces text
unfolding skip_spaces
skip_spaces-append [] text h = refl
skip_spaces-append (c ∷ cs) text h = rw h.0 (skip_spaces-append cs text h.1)

-- A text of digits, behind an optional sign, starts with no white space.
signed-digits :
    (sign ds : Bytes)
    → (sign ≡ []) ⊎ (sign ≡ b'+' ∷ [])
    → All IsDigit ds
    → ds ≢ []
    → signed (skip_spaces (sign ++ ds)) ≡ some (clamp false (number_from 0 ds), [])
unfolding signed skip_spaces after_sign
signed-digits sign [] s h ne = absurd (ne refl)
signed-digits sign (c ∷ cs) s h ne = ground (arith, span_digits-digits (c ∷ cs) h)

-- The white space in front of a text.
spaces : Bytes → Bytes
spaces [] = []
spaces (c ∷ cs) = if is_space c then c ∷ spaces cs else []

spaces_split :
    (text : Bytes)
    → (text ≡ spaces text ++ skip_spaces text) × All (λ c. is_space c ≡ true) (spaces text)
unfolding spaces skip_spaces
spaces_split [] = (refl, tt)
spaces_split (c ∷ cs) =
    let (split, white) = spaces_split cs in
    elim (Bool-cases (is_space c)) [
      | inl yes_space ↦ rw yes_space (ap (◌∷◌ c) split, (yes_space, white))
      | inr no_space ↦ rw no_space (refl, tt)
    ]

span_digits_split :
    (text : Bytes)
    → (text ≡ (span_digits text).0 ++ (span_digits text).1) × All IsDigit (span_digits text).0
unfolding span_digits
span_digits_split [] = (refl, tt)
span_digits_split (c ∷ cs) = ground (arith, span_digits_split cs)

-- Only digits, at least one, that spell a port.
record Digits (text : Bytes) (p : ℕ) : Type 0 where
  are_digits : All IsDigit text
  some_digit : text ≢ []
  value : number_from 0 text ≡ p
  lo : 1 ≤ p
  hi : p ≤ 65535

accept-converted :
    (ds rest : Bytes) {p : ℕ}
    → accept (converted false ds rest) ≡ some p
    → (rest ≡ []) × (ds ≢ []) × (number_from 0 ds ≡ p) × (1 ≤ p) × (p ≤ 65535)
accept-converted [] rest h = cc
accept-converted (d ∷ ds) [] h = ground arith
accept-converted (d ∷ ds) (c ∷ cs) h = ground arith

-- A negative number is no port.
accept-converted_minus : (ds rest : Bytes) → accept (converted true ds rest) ≡ none
accept-converted_minus [] rest = refl
accept-converted_minus (d ∷ ds) [] = ground arith
accept-converted_minus (d ∷ ds) (c ∷ cs) = ground arith

accept-after_sign : (text : Bytes) {p : ℕ} → accept (after_sign false text) ≡ some p → Digits text p
unfolding after_sign
accept-after_sign text {p} h =
    let (split, digits) = span_digits_split text in
    let (end, ne, value, lo, hi) = accept-converted (span_digits text).0 (span_digits text).1 h in
    let whole : (span_digits text).0 ≡ text =
      sym (append-nil _) ∙ ap (λ rest. (span_digits text).0 ++ rest) (sym end) ∙ sym split in
    record {
      are_digits = subst (All IsDigit) whole digits;
      some_digit = λ e. ne (whole ∙ e);
      value = ap (number_from 0) (sym whole) ∙ value;
      lo = lo;
      hi = hi;
    }

signed-Digits :
    (text : Bytes) {p : ℕ}
    → accept (signed text) ≡ some p
    → (sign : Bytes) × (ds : Bytes) × (text ≡ sign ++ ds)
      × ((sign ≡ []) ⊎ (sign ≡ b'+' ∷ []))
      × Digits ds p
unfolding signed after_sign
signed-Digits [] h = cc
signed-Digits (c ∷ cs) {p} h = elim (Bool-cases (c == b'-')) [
  | inl minus ↦ cc (accept-converted_minus (span_digits cs).0 (span_digits cs).1, rw minus at h)
  | inr other ↦ elim (Bool-cases (c == b'+')) [
    | inl plus ↦
        (b'+' ∷ [], cs, ground arith, inr refl, accept-after_sign cs (rw (other, plus) at h))
    | inr none_given ↦
        ([], c ∷ cs, refl, inl refl, accept-after_sign (c ∷ cs) (rw (other, none_given) at h))
  ]
]

-- `main` takes a text for a port exactly when it is white space, an optional "+", and digits that
-- spell a number from 1 to 65535, with nothing behind them; and that number is the port.
pub port_of_iff :
    (text : Bytes) (p : ℕ) → (port_of text ≡ some p) ↔ (Spells text p × (1 ≤ p) × (p ≤ 65535))
unfolding port_of strtol
port_of_iff text p = (
  λ h.
      let (split, white) = spaces_split text in
      let (sign, ds, split', is_sign, ok) = signed-Digits (skip_spaces text) h in
      (
        record {
          space = spaces text;
          sign = sign;
          digits = ds;
          split = split ∙ ap (λ t. spaces text ++ t) split';
          is_white = white;
          is_sign = is_sign;
          are_digits = ok.are_digits;
          some_digit = ok.some_digit;
          value = ok.value;
        },
        ok.lo,
        ok.hi,
      ),
  λ (s, lo, hi). taken s lo hi,
)
  where
    taken : Spells text p → 1 ≤ p → p ≤ 65535 → accept (signed (skip_spaces text)) ≡ some p
    taken s lo hi =
        ap (λ t. accept (signed (skip_spaces t))) s.split
        ∙ ap (λ t. accept (signed t)) (skip_spaces-append s.space (s.sign ++ s.digits) s.is_white)
        ∙ ap accept (signed-digits s.sign s.digits s.is_sign s.are_digits s.some_digit)
        ∙ rw s.value (ground arith)
