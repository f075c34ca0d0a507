-- ===== src/Server/Operators/Delivery.antt =====
-- Who gets a broadcast after operators log in and leave.
use native.Mathlib.Decide.{dec_lt}
use iot_monitoring_system.Base.{
  ℕ, zero, suc, ◌+◌, ◌-◌, ◌≤◌, ◌<◌, ◌≡◌, refl, ap, sym, ◌∙◌, List, [], ◌∷◌, Option, none, some,
  true, false, Bytes, set, if◌then◌else◌, ℤ, pos, negsuc, length, length-set, arith, add-one,
  lt→ltb, le→not-ltb, subst, Bool-cases, inl, inr,
}
use iot_monitoring_system.Server.Operators.{
  Slot, Operators, max_operators, fd_eq, register_operator, remove_slot, remove_operator, is_live,
  Send, broadcast_loop, broadcast_alert,
}

-- How many of the sends go to a descriptor.
abbrev pub sends_to : ℤ → List Send → ℕ
sends_to fd [] = 0
sends_to fd (m ∷ ms) = (if fd_eq m.fd fd then 1 else 0) + sends_to fd ms

-- A slot whose descriptor is positive has its mutex.
abbrev pub HasMutex : List Slot → ℕ → Type 0
HasMutex [] n = Unit
HasMutex (s ∷ ss) zero = Unit
HasMutex (s ∷ ss) (suc n) =
    (is_live s.client s.write_mutex ≡ is_live s.client (some 0)) × HasMutex ss n

-- The registry that `register_operator` and `remove_operator` keep.
pub record IsValid (o : Operators) : Type 0 where
  pub whole : length o.slots ≡ max_operators
  pub within : o.operator_count ≤ max_operators
  pub mutexes : HasMutex o.slots o.operator_count

-- What a slot adds to the sends to a descriptor.
abbrev pub hits : ℤ → ℤ → Option ℕ → ℕ
hits fd client m = if is_live client m then (if fd_eq client fd then 1 else 0) else 0

pub hits_self :
    (fd : ℕ) (client : ℤ) (m : Option ℕ)
    → fd_eq client (pos (suc fd)) ≡ true
    → is_live client m ≡ is_live client (some 0)
    → hits (pos (suc fd)) client m ≡ 1
hits_self fd (pos zero) m e h = ground arith
hits_self fd (pos (suc n)) m e h = rw (h, e)
hits_self fd (negsuc n) m e h = cc

hits-other : (fd client : ℤ) (m : Option ℕ) → fd_eq client fd ≡ false → hits fd client m ≡ 0
hits-other fd client m e = ground arith

module _ (text : Bytes) where
  pub sends_to-cons :
      (fd : ℤ) (s : Slot) (ss : List Slot) (n : ℕ)
      → sends_to fd (broadcast_loop text (s ∷ ss) (suc n))
        ≡ hits fd s.client s.write_mutex + sends_to fd (broadcast_loop text ss n)
  unfolding broadcast_loop
  sends_to-cons fd s ss n = elim (Bool-cases (is_live s.client s.write_mutex)) [
    | inl live ↦ rw (live, broadcast_loop)
    | inr dead ↦ rw (dead, broadcast_loop) (omega arith)
  ]

  pub sends_to-end : (fd : ℤ) (ss : List Slot) → sends_to fd (broadcast_loop text ss 0) ≡ 0
  unfolding broadcast_loop
  sends_to-end fd [] = refl
  sends_to-end fd (s ∷ ss) = refl

  pub sends_to-nil : (fd : ℤ) (n : ℕ) → sends_to fd (broadcast_loop text [] n) ≡ 0
  unfolding broadcast_loop
  sends_to-nil fd n = refl

abbrev pub freed : Slot
freed = record { client = negsuc 0; write_mutex = none }

pub remove_slot-nil : (fd : ℤ) (n : ℕ) → remove_slot fd [] n ≡ []
unfolding remove_slot
remove_slot-nil fd n = refl

pub remove_slot-hit :
    (fd : ℤ) (s : Slot) (ss : List Slot) (n : ℕ)
    → fd_eq s.client fd ≡ true
    → remove_slot fd (s ∷ ss) (suc n) ≡ freed ∷ ss
unfolding remove_slot
remove_slot-hit fd s ss n e = rw (e, remove_slot)

pub remove_slot-miss :
    (fd : ℤ) (s : Slot) (ss : List Slot) (n : ℕ)
    → fd_eq s.client fd ≡ false
    → remove_slot fd (s ∷ ss) (suc n) ≡ s ∷ remove_slot fd ss n
unfolding remove_slot
remove_slot-miss fd s ss n e = rw (e, remove_slot)

-- In a full table nobody is registered.
pub register_operator-full :
    (fd : ℤ) (m : ℕ) (o : Operators)
    → max_operators ≤ o.operator_count
    → (register_operator fd m o).0 ≡ o
unfolding register_operator
register_operator-full fd m o full = rw (le→not-ltb o.operator_count max_operators full)

module _ (text : Bytes) where
  abbrev pub load : ℤ → List Slot → ℕ → ℕ
  load fd ss n = sends_to fd (broadcast_loop text ss n)

  -- Removing a client takes one of its sends away, if it had any.
  remove_slot_self :
      (fd : ℕ) (ss : List Slot) (n : ℕ)
      → HasMutex ss n
      → load (pos (suc fd)) (remove_slot (pos (suc fd)) ss n) n ≡ load (pos (suc fd)) ss n - 1
  remove_slot_self fd [] n h =
      let F = pos (suc fd) in
      omega (arith, ap (λ l. load F l n) (remove_slot-nil F n), sends_to-nil text F n)
  remove_slot_self fd (s ∷ ss) zero h =
      let F = pos (suc fd) in
      omega (arith, sends_to-end text F (s ∷ ss), sends_to-end text F (remove_slot F (s ∷ ss) 0))
  remove_slot_self fd (s ∷ ss) (suc n) h =
      let F = pos (suc fd) in
      elim (Bool-cases (fd_eq s.client F)) [
        | inl hit ↦ omega (
          arith,
          ap (λ l. load F l (suc n)) (remove_slot-hit F s ss n hit),
          sends_to-cons text F freed ss n,
          sends_to-cons text F s ss n,
          hits_self fd s.client s.write_mutex hit h.0,
        )
        | inr miss ↦ omega (
          arith,
          ap (λ l. load F l (suc n)) (remove_slot-miss F s ss n miss),
          sends_to-cons text F s (remove_slot F ss n) n,
          sends_to-cons text F s ss n,
          hits-other F s.client s.write_mutex miss,
          remove_slot_self fd ss n h.1,
        )
      ]

  -- The slot that a registration writes adds one send.
  load-set :
      (fd m : ℕ) (ss : List Slot) (n : ℕ)
      → n < length ss
      → load
          (pos (suc fd))
          (set ss n (record { client = pos (suc fd); write_mutex = some m }))
          (suc n)
        ≡ load (pos (suc fd)) ss n + 1
  load-set fd m [] n lt = absurd (omega arith)
  load-set fd m (s ∷ ss) zero lt =
      let F = pos (suc fd) in
      omega (
        arith,
        sends_to-cons text F (record { client = F; write_mutex = some m }) ss 0,
        sends_to-end text F ss,
        sends_to-end text F (s ∷ ss),
        hits_self fd F (some m) (ground arith) refl,
      )
  load-set fd m (s ∷ ss) (suc n) lt =
      let F = pos (suc fd) in
      omega (
        arith,
        sends_to-cons text F s (set ss n (record { client = F; write_mutex = some m })) (suc n),
        sends_to-cons text F s ss n,
        load-set fd m ss n (omega arith),
      )

pub register_operator-room :
    (fd : ℤ) (m : ℕ) (o : Operators)
    → o.operator_count < max_operators
    → (register_operator fd m o).0 ≡ record {
      slots = set o.slots o.operator_count (record { client = fd; write_mutex = some m });
      operator_count = suc o.operator_count;
    }
unfolding register_operator
register_operator-room fd m o room = rw (lt→ltb o.operator_count max_operators room, add-one)

HasMutex-set :
    (fd : ℤ) (m : ℕ) (ss : List Slot) (n : ℕ)
    → n < length ss
    → HasMutex ss n
    → HasMutex (set ss n (record { client = fd; write_mutex = some m })) (suc n)
HasMutex-set fd m [] n lt h = tt
HasMutex-set fd m (s ∷ ss) zero lt h = (same fd, HasMutex-zero ss)
  where
    same : (c : ℤ) → is_live c (some m) ≡ is_live c (some 0)
    same (pos zero) = refl
    same (pos (suc n)) = refl
    same (negsuc n) = refl

    HasMutex-zero : (ss : List Slot) → HasMutex ss 0
    HasMutex-zero [] = tt
    HasMutex-zero (s ∷ ss) = tt
HasMutex-set fd m (s ∷ ss) (suc n) lt h = (h.0, HasMutex-set fd m ss n (omega arith) h.1)

-- A login keeps the registry valid.
pub register_operator-IsValid :
    (fd : ℤ) (m : ℕ) {o : Operators} → IsValid o → IsValid (register_operator fd m o).0
register_operator-IsValid fd m {o} v = elim (dec_lt o.operator_count max_operators) [
  | yes room ↦ rw (register_operator-room fd m o room) (record {
    whole = length-set o.slots o.operator_count _ ∙ v.whole;
    within = room;
    mutexes = HasMutex-set fd m o.slots o.operator_count (omega (arith, v.whole)) v.mutexes;
  })
  | no full ↦ subst IsValid (sym (register_operator-full fd m o (omega arith))) v
]

module _ (text : Bytes) (fd m : ℕ) {o : Operators} (v : IsValid o) where
  abbrev F : ℤ
  F = pos (suc fd)

  -- With a slot free, a login adds one send of each broadcast to the client.
  pub sends_to-register :
      o.operator_count < max_operators
      → sends_to F (broadcast_alert text (register_operator F m o).0)
        ≡ sends_to F (broadcast_alert text o) + 1
  unfolding broadcast_alert
  sends_to-register room =
      rw (register_operator-room F m o room)
        (load-set text fd m o.slots o.operator_count (omega (arith, v.whole)))

  -- Leaving takes one send away, if there was one.
  pub sends_to-remove :
      sends_to F (broadcast_alert text (remove_operator F o))
      ≡ sends_to F (broadcast_alert text o) - 1
  unfolding remove_operator broadcast_alert
  sends_to-remove = remove_slot_self text fd o.slots o.operator_count v.mutexes
