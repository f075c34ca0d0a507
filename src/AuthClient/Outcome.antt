-- ===== src/AuthClient/Outcome.antt =====
-- What a call of `auth_client_verify` (server/src/auth_client.c) returns, and its sockets.
use mathlib.Core.List.{append_assoc}
use iot_monitoring_system.Base.{
  ℕ, subst, zero, suc, ◌⊎◌, ◌++◌, ◌==◌, ◌||◌, ◌∙◌, ap, sym, ==_iff, str_eq_iff, take-append-drop,
  ◌+◌, ◌-◌, ◌<◌, ◌≤◌, ◌≡◌, ◌≢◌, refl, List, [], ◌∷◌, Bytes, codes, c_str, strn_eq, take, drop,
  length, length-take, ℤ, pos, negsuc, Bool, true, false, if◌then◌else◌, All, arith, Bool-cases,
  inl, inr,
}
use iot_monitoring_system.AuthClient.{
  Attempt, no_socket, no_address, refused, connected, Network, SocketCall, opens, closes,
  connect_loop, auth_request, cut_newline, read_role, auth_client_verify,
}

-- How many sockets some calls leave open, with `n` open before them.
abbrev pub open_after : ℕ → List SocketCall → ℕ
open_after n [] = n
open_after n (opens ∷ cs) = open_after (n + 1) cs
open_after n (closes ∷ cs) = open_after (n - 1) cs

-- The first host that accepts the connection is used; no socket means no attempt at the second.
abbrev pub reaches : Attempt → Attempt → Bool
reaches connected b = true
reaches no_socket b = false
reaches _ connected = true
reaches _ _ = false

-- The answer that the client reads from the service.
abbrev pub received : Network → Bytes → Bytes → Bytes
received net username password = take 1023 (net.answer (auth_request username password))

-- A role that the service grants.
abbrev pub grants : Bytes → Bool
grants answer = strn_eq 5 (c_str answer) (codes "ROLE:")

abbrev pub NoLineEnd : Bytes → Type 0
NoLineEnd = All (λ c. (c ≢ b'\r') × (c ≢ b'\n'))

-- A text that is empty or starts with a line end.
abbrev pub AtLineEnd : Bytes → Type 0
AtLineEnd [] = Unit
AtLineEnd (c ∷ cs) = (c ≡ b'\r') ⊎ (c ≡ b'\n')

-- The role of an answer, for a buffer of `size` bytes: what stands behind "ROLE:", up to a line end
-- or the end of the answer, or up to the last byte that leaves room for a NUL.
pub record IsRole (size : ℕ) (answer role : Bytes) : Type 0 where
  pub rest : Bytes
  pub stands : c_str answer ≡ codes "ROLE:" ++ (role ++ rest)
  pub one_line : NoLineEnd role
  pub fits : length role < size
  pub ends : AtLineEnd rest ⊎ (suc (length role) ≡ size)

cut_newline-NoLineEnd : (text : Bytes) → NoLineEnd (cut_newline text)
unfolding cut_newline
cut_newline-NoLineEnd [] = tt
cut_newline-NoLineEnd (c ∷ cs) = ground (arith, cut_newline-NoLineEnd cs)

length-cut_newline : (text : Bytes) → length (cut_newline text) ≤ length text
unfolding cut_newline
length-cut_newline [] = omega arith
length-cut_newline (c ∷ cs) = ground (arith, length-cut_newline cs)

read_role_lem :
    (answer : Bytes) (size : ℕ)
    → 0 < size
    → ((read_role answer size).0 ≡ (if grants answer then pos 1 else pos 0))
      × NoLineEnd (read_role answer size).1
      × (length (read_role answer size).1 < size)
unfolding read_role
read_role_lem answer size h = elim (Bool-cases (grants answer)) [
  | inl yes_role ↦
      let text = take (size - 1) (drop 5 (c_str answer)) in
      rw yes_role (
        refl,
        cut_newline-NoLineEnd text,
        omega (arith, length-cut_newline text, length-take (size - 1) (drop 5 (c_str answer))),
      )
  | inr no_role ↦ rw no_role (refl, tt, h)
]

after_newline : Bytes → Bytes
after_newline [] = []
after_newline (c ∷ cs) = if c == b'\r' || c == b'\n' then c ∷ cs else after_newline cs

cut_newline-after : (text : Bytes) → cut_newline text ++ after_newline text ≡ text
unfolding cut_newline after_newline
cut_newline-after [] = refl
cut_newline-after (c ∷ cs) = ground (arith, cut_newline-after cs)

-- Where the role ends: the first line end within `n` bytes, the end of the text, or after `n` bytes.
cut_newline-ends :
    (n : ℕ) (text : Bytes)
    → AtLineEnd (after_newline (take n text) ++ drop n text)
      ⊎ (length (cut_newline (take n text)) ≡ n)
unfolding cut_newline after_newline
cut_newline-ends zero text = inr refl
cut_newline-ends (suc n) [] = inl tt
cut_newline-ends (suc n) (c ∷ cs) = elim (Bool-cases (c == b'\r')) [
  | inl cr ↦ rw cr (inl (inl ((==_iff c b'\r').0 cr)))
  | inr other ↦ elim (Bool-cases (c == b'\n')) [
    | inl lf ↦ rw (other, lf) (inl (inr ((==_iff c b'\n').0 lf)))
    | inr text ↦
        rw (other, text) (elim (cut_newline-ends n cs) [ inl e ↦ inl e | inr e ↦ inr (ap suc e) ])
  ]
]

-- An answer that grants a role has it behind "ROLE:".
pub read_role-IsRole :
    (answer : Bytes) (size : ℕ)
    → 0 < size
    → grants answer ≡ true
    → IsRole size answer (read_role answer size).1
unfolding read_role
read_role-IsRole answer size h granted =
    let tail = drop 5 (c_str answer) in
    let (result, one_line, fits) = read_role_lem answer size h in
    let prefix = (str_eq_iff (take 5 (c_str answer)) (codes "ROLE:")).0 granted in
    let split : cut_newline (take (size - 1) tail)
          ++ (after_newline (take (size - 1) tail) ++ drop (size - 1) tail)
        ≡ tail =
      sym (append_assoc (cut_newline (take (size - 1) tail)) _ _)
      ∙ ap (λ t. t ++ drop (size - 1) tail) (cut_newline-after (take (size - 1) tail))
      ∙ take-append-drop (size - 1) tail in
    let same : (read_role answer size).1 ≡ cut_newline (take (size - 1) tail) = rw granted refl in
    record {
      rest = after_newline (take (size - 1) tail) ++ drop (size - 1) tail;
      stands =
          sym (take-append-drop 5 (c_str answer))
          ∙ ap (λ t. t ++ tail) prefix
          ∙ ap (λ t. codes "ROLE:" ++ t) (sym split)
          ∙ ap
              (λ r.
                codes "ROLE:"
                ++ (r ++ (after_newline (take (size - 1) tail) ++ drop (size - 1) tail)))
              (sym same);
      one_line = one_line;
      fits = fits;
      ends = elim (cut_newline-ends (size - 1) tail) [
        | inl e ↦ inl e
        | inr e ↦ inr (omega (arith, e, ap length same))
      ];
    }

-- What a call promises of its sockets, its result and its role.
abbrev pub Promises : Network → Bytes → ℕ → ℤ × Bytes × List SocketCall → Type 0
Promises net answer buffer_size (result, role, calls) =
    (open_after 0 calls ≡ 0)
    × (result ≡ (
        if reaches net.docker_host net.local_host
        then (if grants answer then pos 1 else pos 0)
        else negsuc 0))
    × NoLineEnd role
    × (length role < buffer_size)

Promises-attempts :
    (a b : Attempt) (answer : Bytes → Bytes) (username password : Bytes) (buffer_size : ℕ)
    → 0 < buffer_size
    → let net : Network = record { docker_host = a; local_host = b; answer = answer } in
      Promises net
        (received net username password)
        buffer_size
        (auth_client_verify net username password buffer_size)
unfolding auth_client_verify connect_loop
Promises-attempts no_socket b answer username password size h = (refl, refl, tt, h)
Promises-attempts connected b answer username password size h =
    let (result, role, fits) =
      read_role_lem (take 1023 (answer (auth_request username password))) size h in
    (refl, result, role, fits)
Promises-attempts no_address no_socket answer username password size h = (refl, refl, tt, h)
Promises-attempts no_address connected answer username password size h =
    let (result, role, fits) =
      read_role_lem (take 1023 (answer (auth_request username password))) size h in
    (refl, result, role, fits)
Promises-attempts no_address _ answer username password size h = (refl, refl, tt, h)
Promises-attempts refused no_socket answer username password size h = (refl, refl, tt, h)
Promises-attempts refused connected answer username password size h =
    let (result, role, fits) =
      read_role_lem (take 1023 (answer (auth_request username password))) size h in
    (refl, result, role, fits)
Promises-attempts refused _ answer username password size h = (refl, refl, tt, h)

-- For a buffer of positive size, and whatever the network does, every socket that the call opened
-- is closed again. The result is -1 when no host is reached, 1 when the answer begins with "ROLE:"
-- and 0 when it does not; and the role fits the buffer with its NUL and has no line end.
pub auth_client_verify_lem :
    (net : Network) (username password : Bytes) (buffer_size : ℕ)
    → 0 < buffer_size
    → Promises net
        (received net username password)
        buffer_size
        (auth_client_verify net username password buffer_size)
auth_client_verify_lem net username password buffer_size h =
    Promises-attempts net.docker_host net.local_host net.answer username password buffer_size h

auth_client_verify-read :
    (a b : Attempt) (answer : Bytes → Bytes) (username password : Bytes) (buffer_size : ℕ)
    → reaches a b ≡ true
    → let net : Network = record { docker_host = a; local_host = b; answer = answer } in
      (auth_client_verify net username password buffer_size).1
      ≡ (read_role (received net username password) buffer_size).1
unfolding auth_client_verify connect_loop
auth_client_verify-read no_socket b answer username password size h = cc
auth_client_verify-read connected b answer username password size h = refl
auth_client_verify-read no_address no_socket answer username password size h = cc
auth_client_verify-read no_address no_address answer username password size h = cc
auth_client_verify-read no_address refused answer username password size h = cc
auth_client_verify-read no_address connected answer username password size h = refl
auth_client_verify-read refused no_socket answer username password size h = cc
auth_client_verify-read refused no_address answer username password size h = cc
auth_client_verify-read refused refused answer username password size h = cc
auth_client_verify-read refused connected answer username password size h = refl

-- When a host is reached and its answer grants a role, that role is left in `role_buffer`.
pub auth_client_verify-IsRole :
    (net : Network) (username password : Bytes) (buffer_size : ℕ)
    → 0 < buffer_size
    → reaches net.docker_host net.local_host ≡ true
    → grants (received net username password) ≡ true
    → IsRole buffer_size
        (received net username password)
        (auth_client_verify net username password buffer_size).1
auth_client_verify-IsRole net username password size h reached granted =
    subst (IsRole size (received net username password))
      (sym (
        auth_client_verify-read net.docker_host net.local_host net.answer username password size
          reached))
      (read_role-IsRole (received net username password) size h granted)
