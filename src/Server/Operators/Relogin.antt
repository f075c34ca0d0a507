-- ===== src/Server/Operators/Relogin.antt =====
-- A client that logs in twice on one connection: what the broadcasts of server/src/server.c send then,
-- call by call.
use mathlib.Core.List.{append_assoc, append-nil}
use iot_monitoring_system.Base.{
  ℕ, zero, suc, ◌<◌, ◌≡◌, refl, sym, ap, ◌∙◌, List, [], ◌∷◌, ◌++◌, some, if◌then◌else◌, Bytes, set,
  length, length-set, pos, arith, Bool-cases, inl, inr,
}
use iot_monitoring_system.Server.Operators.{
  Slot, Operators, max_operators, fd_eq, register_operator, remove_slot, remove_operator, Send,
  is_live, broadcast_loop, broadcast_alert,
}
use iot_monitoring_system.Server.Operators.Delivery.{
  IsValid, HasMutex, sends_to, freed, remove_slot-hit, remove_slot-miss, register_operator-room,
  sends_to-cons, hits_self,
}

module _ (text : Bytes) where
  -- What a slot adds to a broadcast.
  abbrev send_of : Slot → List Send
  send_of s =
      if is_live s.client s.write_mutex
      then record { mutex = s.write_mutex; fd = s.client; text = text } ∷ []
      else []

  broadcast_loop-cons :
      (s : Slot) (ss : List Slot) (n : ℕ)
      → broadcast_loop text (s ∷ ss) (suc n) ≡ send_of s ++ broadcast_loop text ss n
  unfolding broadcast_loop
  broadcast_loop-cons s ss n = elim (Bool-cases (is_live s.client s.write_mutex)) [
    | inl live ↦ rw (live, broadcast_loop)
    | inr dead ↦ rw (dead, broadcast_loop)
  ]

  broadcast_loop-zero : (ss : List Slot) → broadcast_loop text ss 0 ≡ []
  unfolding broadcast_loop
  broadcast_loop-zero [] = refl
  broadcast_loop-zero (s ∷ ss) = refl

  -- A slot written behind the first `n` adds its own send at the end.
  broadcast_loop-set :
      (ss : List Slot) (n : ℕ) (s : Slot)
      → n < length ss
      → broadcast_loop text (set ss n s) (suc n) ≡ broadcast_loop text ss n ++ send_of s
  broadcast_loop-set [] n s h = absurd (omega arith)
  broadcast_loop-set (x ∷ xs) zero s h =
      broadcast_loop-cons s xs 0
      ∙ rw (broadcast_loop-zero xs, broadcast_loop-zero (x ∷ xs)) (append-nil (send_of s))
  broadcast_loop-set (x ∷ xs) (suc n) s h =
      broadcast_loop-cons x (set xs n s) (suc n)
      ∙ ap (◌++◌ (send_of x)) (broadcast_loop-set xs n s (omega arith))
      ∙ sym (append_assoc (send_of x) (broadcast_loop text xs n) (send_of s))
      ∙ ap (λ l. l ++ send_of s) (sym (broadcast_loop-cons x xs n))

  -- Removing a client with a positive descriptor that no earlier slot has frees the slot that its
  -- first login wrote.
  remove_slot-set :
      (fd : ℕ) (new : Slot) (ss : List Slot) (n : ℕ)
      → new.client ≡ pos (suc fd)
      → HasMutex ss n
      → sends_to (pos (suc fd)) (broadcast_loop text ss n) ≡ 0
      → suc n < length ss
      → remove_slot (pos (suc fd)) (set (set ss n new) (suc n) new) (suc (suc n))
        ≡ set (set ss n freed) (suc n) new
  remove_slot-set fd new [] n e v h l = absurd (omega arith)
  remove_slot-set fd new (x ∷ xs) zero e v h l =
      remove_slot-hit (pos (suc fd)) new (set xs 0 new) 1 (rw e (ground arith))
  remove_slot-set fd new (x ∷ xs) (suc n) e v h l =
      elim (Bool-cases (fd_eq x.client (pos (suc fd)))) [
        | inl hit ↦ absurd (
            omega (
              arith,
              h,
              sends_to-cons text (pos (suc fd)) x xs n,
              hits_self fd x.client x.write_mutex hit v.0,
            ))
        | inr miss ↦
            remove_slot-miss (pos (suc fd)) x (set (set xs n new) (suc n) new) (suc (suc n)) miss
            ∙ ap (◌∷◌ x) (
                remove_slot-set fd new xs n e v.1
                  (omega (arith, h, sends_to-cons text (pos (suc fd)) x xs n)) (omega arith))
      ]

module _ (text : Bytes) (fd m : ℕ) {o : Operators} (v : IsValid o)
    (new : sends_to (pos (suc fd)) (broadcast_alert text o) ≡ 0) where
  abbrev slot : Slot
  slot = record { client = pos (suc fd); write_mutex = some m }

  -- A send to the client under its mutex.
  abbrev pub own_send : Send
  own_send = record { mutex = some m; fd = pos (suc fd); text = text }

  abbrev pub twice : Operators
  twice = (register_operator (pos (suc fd)) m (register_operator (pos (suc fd)) m o).0).0

  twice-slots :
      suc o.operator_count < max_operators
      → twice ≡ record {
        slots = set (set o.slots o.operator_count slot) (suc o.operator_count) slot;
        operator_count = suc (suc o.operator_count);
      }
  twice-slots room =
      ap (λ p. (register_operator (pos (suc fd)) m p).0)
        (register_operator-room (pos (suc fd)) m o (omega arith))
      ∙ register_operator-room (pos (suc fd)) m _ room

  -- In a valid registry that sends nothing to a client with a positive descriptor, the client,
  -- logging in twice on one connection with two slots free, is sent each broadcast twice, under its
  -- mutex and behind the sends to the others. After it has left, each broadcast still sends to its
  -- descriptor once, under its mutex.
  pub two_logins :
      suc o.operator_count < max_operators
      → (broadcast_alert text twice ≡ broadcast_alert text o ++ own_send ∷ own_send ∷ [])
        × (broadcast_alert text (remove_operator (pos (suc fd)) twice)
            ≡ broadcast_alert text o ++ own_send ∷ [])
  unfolding broadcast_alert remove_operator
  two_logins room =
      let n = o.operator_count in
      let short : suc n < length o.slots = omega (arith, v.whole) in
      let with = λ (s : Slot).
        broadcast_loop-set text (set o.slots n s) (suc n) slot
          (omega (arith, length-set o.slots n s, short))
        ∙ ap (λ l. l ++ own_send ∷ [])
            (broadcast_loop-set text o.slots n s (omega (arith, short))) in
      (
        rw (twice-slots room) (
            with slot
            ∙ append_assoc (broadcast_loop text o.slots n) (own_send ∷ []) (own_send ∷ [])),
        rw (twice-slots room) (
            ap (λ l. broadcast_loop text l (suc (suc n)))
              (remove_slot-set text fd slot o.slots n refl v.mutexes new short)
            ∙ with freed
            ∙ ap (λ l. l ++ own_send ∷ []) (append-nil (broadcast_loop text o.slots n))),
      )
