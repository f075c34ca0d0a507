-- ===== src/Server/Operators.antt =====
-- `operator_clients`, `operator_write_mutexes` and `operator_count` of server/src/server.c. The two
-- arrays are used slot by slot and are one list here; a mutex is named by the number of the client
-- context that holds it. Each function runs under `operator_mutex` and is one step.
pub mod Delivery
pub mod Sessions
pub mod Relogin
use iot_monitoring_system.Base.{
  ℕ, zero, suc, ◌+◌, List, [], ◌∷◌, Option, none, some, Bool, true, false, Bytes, codes, replicate,
  set, ltb, ◌==◌, if◌then◌else◌, ℤ, pos, negsuc, LogCall, logger_info,
}

pub record Slot : Type 0 where
  pub client : ℤ
  pub write_mutex : Option ℕ

pub record Operators : Type 0 where
  pub slots : List Slot
  pub operator_count : ℕ

abbrev pub max_operators : ℕ
max_operators = 100

-- the statics as the program starts with them
abbrev pub no_operators : Operators
no_operators = record {
  slots = replicate max_operators (record { client = pos 0; write_mutex = none });
  operator_count = 0;
}

abbrev pub fd_eq : ℤ → ℤ → Bool
fd_eq (pos a) (pos b) = a == b
fd_eq (pos a) (negsuc b) = false
fd_eq (negsuc a) (pos b) = false
fd_eq (negsuc a) (negsuc b) = a == b

unfoldable pub register_operator : ℤ → ℕ → Operators → Operators × List LogCall
register_operator client_fd write_mutex o =
    if ltb o.operator_count max_operators
    then (
      record {
        slots =
            set o.slots o.operator_count
              (record { client = client_fd; write_mutex = some write_mutex });
        operator_count = o.operator_count + 1;
      },
      logger_info (codes "Operator registered for alerts") ∷ [],
    )
    else (o, [])

-- The loop of `remove_operator` over the first `n` slots; it stops at the first hit.
unfoldable pub remove_slot : ℤ → List Slot → ℕ → List Slot
remove_slot client_fd [] n = []
remove_slot client_fd (s ∷ ss) zero = s ∷ ss
remove_slot client_fd (s ∷ ss) (suc n) =
    if fd_eq s.client client_fd
    then record { client = negsuc 0; write_mutex = none } ∷ ss
    else s ∷ remove_slot client_fd ss n

unfoldable pub remove_operator : ℤ → Operators → Operators
remove_operator client_fd o = record o { slots = remove_slot client_fd o.slots o.operator_count }

-- `operator_clients[i] > 0 && operator_write_mutexes[i] != NULL`
abbrev pub is_live : ℤ → Option ℕ → Bool
is_live (pos zero) m = false
is_live (pos (suc n)) none = false
is_live (pos (suc n)) (some m) = true
is_live (negsuc n) m = false

-- A call of `send` under a mutex: the mutex, the descriptor, the bytes.
pub record Send : Type 0 where
  pub mutex : Option ℕ
  pub fd : ℤ
  pub text : Bytes

-- The loop of `broadcast_alert` over the first `n` slots.
unfoldable pub broadcast_loop : Bytes → List Slot → ℕ → List Send
broadcast_loop text [] n = []
broadcast_loop text (s ∷ ss) zero = []
broadcast_loop text (s ∷ ss) (suc n) =
    let rest = broadcast_loop text ss n in
    if is_live s.client s.write_mutex
    then record { mutex = s.write_mutex; fd = s.client; text = text } ∷ rest
    else rest

unfoldable pub broadcast_alert : Bytes → Operators → List Send
broadcast_alert alert_message o = broadcast_loop alert_message o.slots o.operator_count
