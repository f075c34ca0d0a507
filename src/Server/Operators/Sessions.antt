-- ===== src/Server/Operators/Sessions.antt =====
-- Operators that come and go: what the registry keeps of them.
use iot_monitoring_system.Base.{
  ℕ, zero, suc, ◌≤◌, ◌<◌, ◌≡◌, refl, ap, ◌∙◌, List, [], ◌∷◌, none, Bytes, ℤ, pos, arith, Bool-cases,
  inl, inr, length, length-replicate,
}
use iot_monitoring_system.Server.Operators.{
  Slot, Operators, max_operators, fd_eq, register_operator, remove_slot, remove_operator,
  broadcast_alert, no_operators,
}
use iot_monitoring_system.Server.Operators.Delivery.{
  IsValid, HasMutex, sends_to, load, freed, remove_slot-nil, remove_slot-hit, remove_slot-miss,
  sends_to-end, sends_to-cons, register_operator-full, register_operator-IsValid, sends_to-register,
  sends_to-remove,
}

HasMutex-remove :
    (fd : ℤ) (ss : List Slot) (n : ℕ) → HasMutex ss n → HasMutex (remove_slot fd ss n) n
unfolding remove_slot
HasMutex-remove fd [] n h = h
HasMutex-remove fd (s ∷ ss) zero h = h
HasMutex-remove fd (s ∷ ss) (suc n) h = elim (Bool-cases (fd_eq s.client fd)) [
  | inl hit ↦ rw (hit, remove_slot) (refl, h.1)
  | inr miss ↦ rw (miss, remove_slot) (h.0, HasMutex-remove fd ss n h.1)
]

length-remove_slot : (fd : ℤ) (ss : List Slot) (n : ℕ) → length (remove_slot fd ss n) ≡ length ss
unfolding remove_slot
length-remove_slot fd [] n = refl
length-remove_slot fd (s ∷ ss) zero = refl
length-remove_slot fd (s ∷ ss) (suc n) = ground (arith, length-remove_slot fd ss n)

-- A client that leaves keeps the registry valid.
pub remove_operator-IsValid : (fd : ℤ) {o : Operators} → IsValid o → IsValid (remove_operator fd o)
unfolding remove_operator
remove_operator-IsValid fd {o} v = record {
  whole = length-remove_slot fd o.slots o.operator_count ∙ v.whole;
  within = v.within;
  mutexes = HasMutex-remove fd o.slots o.operator_count v.mutexes;
}

HasMutex-none : (ss : List Slot) → HasMutex ss 0
HasMutex-none [] = tt
HasMutex-none (s ∷ ss) = tt

pub no_operators-IsValid : IsValid no_operators
no_operators-IsValid = record {
  whole = length-replicate {A = Slot} max_operators (record { client = pos 0; write_mutex = none });
  within = omega arith;
  mutexes = HasMutex-none no_operators.slots;
}

module _ (text : Bytes) (fd m : ℕ) {o : Operators} (v : IsValid o)
    (new : sends_to (pos (suc fd)) (broadcast_alert text o) ≡ 0) where
  abbrev client : ℤ
  client = pos (suc fd)

  abbrev pub joined : Operators
  joined = (register_operator client m o).0

  -- In a valid registry that sends nothing to a client with a positive descriptor, the client,
  -- logging in once with a slot free, gets each broadcast once, and none after it has left.
  pub one_login :
      o.operator_count < max_operators
      → (sends_to client (broadcast_alert text joined) ≡ 1)
        × (sends_to client (broadcast_alert text (remove_operator client joined)) ≡ 0)
  one_login room =
      let once = sends_to-register text fd m v room in
      let left = sends_to-remove text fd m (register_operator-IsValid client m v) in
      (omega (arith, once, new), omega (arith, once, left, new))

-- The calls that the threads of the clients make.
pub data Call : Type 0 where
  joins : ℤ → ℕ → Call
  leaves : ℤ → Call

abbrev pub step : Operators → Call → Operators
step o (joins fd m) = (register_operator fd m o).0
step o (leaves fd) = remove_operator fd o

abbrev pub run : Operators → List Call → Operators
run o [] = o
run o (c ∷ cs) = run (step o c) cs

load-remove-le :
    (text : Bytes) (F fd : ℤ) (ss : List Slot) (n : ℕ)
    → load text F (remove_slot fd ss n) n ≤ load text F ss n
load-remove-le text F fd [] n = omega (arith, ap (λ l. load text F l n) (remove_slot-nil fd n))
load-remove-le text F fd (s ∷ ss) zero =
    omega (arith, sends_to-end text F (remove_slot fd (s ∷ ss) 0))
load-remove-le text F fd (s ∷ ss) (suc n) = elim (Bool-cases (fd_eq s.client fd)) [
  | inl hit ↦ omega (
    arith,
    ap (λ l. load text F l (suc n)) (remove_slot-hit fd s ss n hit),
    sends_to-cons text F freed ss n,
    sends_to-cons text F s ss n,
  )
  | inr miss ↦ omega (
    arith,
    ap (λ l. load text F l (suc n)) (remove_slot-miss fd s ss n miss),
    sends_to-cons text F s (remove_slot fd ss n) n,
    sends_to-cons text F s ss n,
    load-remove-le text F fd ss n,
  )
]

step-full :
    (text : Bytes) (F : ℤ) (o : Operators) (c : Call)
    → max_operators ≤ o.operator_count
    → (max_operators ≤ (step o c).operator_count)
      × (sends_to F (broadcast_alert text (step o c)) ≤ sends_to F (broadcast_alert text o))
unfolding remove_operator broadcast_alert
step-full text F o (joins fd m) full = rw (register_operator-full fd m o full) (full, omega arith)
step-full text F o (leaves fd) full = (full, load-remove-le text F fd o.slots o.operator_count)

-- Slots are never used again: once a hundred logins have filled the table, a client that a
-- broadcast does not reach is not reached later, however many operators leave and whoever logs in
-- afterwards.
pub full_table_stays_full :
    (text : Bytes) (F : ℤ) (calls : List Call) (o : Operators)
    → max_operators ≤ o.operator_count
    → sends_to F (broadcast_alert text o) ≡ 0
    → sends_to F (broadcast_alert text (run o calls)) ≡ 0
full_table_stays_full text F [] o full absent = absent
full_table_stays_full text F (c ∷ cs) o full absent =
    let (full', fewer) = step-full text F o c full in
    full_table_stays_full text F cs (step o c) full' (omega arith)
