-- ===== src/Server/Sharing.antt =====
-- The buffer `resp_buf` of server/src/protocol.c between the threads of server/src/server.c. A thread
-- builds its response there and sends it later, under no common mutex; `send_complete_response` reads
-- the buffer when it sends.
use iot_monitoring_system.Base.{
  ℕ, suc, ◌≡◌, ◌≢◌, refl, List, ◌∷◌, none, some, Bytes, pos, Doubles, ◌==◌, if◌then◌else◌, arith,
  ==_iff,
}
use iot_monitoring_system.Protocol.Parse.{CommandType, ping, protocol_parse}
use iot_monitoring_system.Server.Dispatch.{Client, not_found}
use iot_monitoring_system.Server.Connection.{Incoming}
use iot_monitoring_system.Server.Connection.Order.{response_to}

-- What `response` points to: the literal "PONG\r\n", or `resp_buf`.
pub data Pointer : Type 0 where
  literal resp_buf : Pointer

abbrev pub pointer_for : CommandType → Pointer
pointer_for ping = literal
pointer_for _ = resp_buf

-- Where a thread is: before a message, or with a response to send. `answering own p` remembers, for
-- the statements, the response that was built.
pub data Pc : Type 0 where
  waiting : Pc
  answering : Bytes → Pointer → Pc

-- A response that was sent: the thread, the response that it had built, and what went out.
pub record Answer : Type 0 where
  pub thread : ℕ
  pub own : Bytes
  pub sent : Bytes

pub record Threads : Type 0 where
  pub buffer : Bytes
  pub pc : ℕ → Pc
  pub answers : List Answer

abbrev pub update : (ℕ → Pc) → ℕ → Pc → ℕ → Pc
update f i p j = if i == j then p else f j

abbrev pub content : Pointer → Bytes → Bytes → Bytes
content literal own buffer = own
content resp_buf own buffer = buffer

-- What is in `resp_buf` when a response is ready: the response, or the default "404" response that is
-- built before the message is parsed.
abbrev pub left_by : Pointer → Bytes → Bytes
left_by literal response = not_found
left_by resp_buf response = response

module _ {F : Type 0} ⦃d : Doubles F⦄ where
  abbrev pub pointer_of : Incoming F → Pointer
  pointer_of i = elim (protocol_parse i.buffer (pos (suc i.count))) [
    | none ↦ resp_buf
    | some msg ↦ pointer_for msg.type
  ]

  -- What handling a message leaves in `resp_buf`.
  abbrev pub built : Client → Incoming F → Bytes
  built client i = left_by (pointer_of i) (response_to client i)

-- The steps of the threads. A thread handles a message, and later sends the response.
module _ (F : Type 0) ⦃d : Doubles F⦄ where
  pub data Step (s : Threads) : Threads → Type 0 where
    handles :
        (i : ℕ) (client : Client) (m : Incoming F)
        → s.pc i ≡ waiting
        → Step s (record s {
          buffer = built client m;
          pc = update s.pc i (answering (response_to client m) (pointer_of m));
        })
    sends :
        (i : ℕ) (own : Bytes) (p : Pointer)
        → s.pc i ≡ answering own p
        → Step s (record s {
          pc = update s.pc i waiting;
          answers = record { thread = i; own = own; sent = content p own s.buffer } ∷ s.answers;
        })

  pub data Reach (s : Threads) : Threads → Type 0 where
    here : Reach s s
    next : {t u : Threads} → Reach s t → Step t u → Reach s u

module _ {F : Type 0} ⦃d : Doubles F⦄ where
  -- Two threads that wait can go on so that the first sends what the second left in the buffer, for
  -- any two messages of which the first is not answered by a literal.
  pub shared_buffer_race :
      (i j : ℕ) (first second : Client) (m n : Incoming F) {s : Threads}
      → i ≢ j
      → s.pc i ≡ waiting
      → s.pc j ≡ waiting
      → pointer_of m ≡ resp_buf
      → (t : Threads) × Reach F s t
        × (t.answers
            ≡ record { thread = i; own = response_to first m; sent = built second n } ∷ s.answers)
  shared_buffer_race i j first second m n {s} differ ready_i ready_j shared =
      let busy = answering (response_to first m) (pointer_of m) in
      let pc₁ = update s.pc i busy in
      let pc₂ = update pc₁ j (answering (response_to second n) (pointer_of n)) in
      let still : pc₁ j ≡ waiting = ground (arith, ==_iff i j) in
      let mine : pc₂ i ≡ busy = ground (arith, ==_iff j i, ==_iff i i) in
      (
        _,
        next (next (next here (handles i first m ready_i)) (handles j second n still))
            (sends i (response_to first m) (pointer_of m) mine),
        rw shared refl,
      )
