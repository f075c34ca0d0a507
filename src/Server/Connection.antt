-- ===== src/Server/Connection.antt =====
-- `handle_client` (server/src/server.c), from the start of the thread to its end. What `recv` returns
-- and what `send` takes are parameters, and so is the shared state that a message finds, which other
-- threads may have changed since the last one.
pub mod Order
pub mod Logged
use iot_monitoring_system.Base.{
  ℕ, suc, List, [], ◌∷◌, ◌++◌, none, some, Bool, true, false, Bytes, codes, c_str, ℤ, pos, Doubles,
  LogCall, logger_event, logger_error, if◌then◌else◌,
}
use iot_monitoring_system.AuthClient.{Network}
use iot_monitoring_system.Protocol.Parse.{protocol_parse}
use iot_monitoring_system.Server.Dispatch.{Server, Client, Handled, handle_message}
use iot_monitoring_system.Server.Operators.{Operators, remove_operator}
use iot_monitoring_system.Server.Resources.{Resource, closes_socket, destroys_mutex, frees_context}
use iot_monitoring_system.Server.Sending.{Sent, complete, send_complete_response}

-- A call of `recv` that returned `count + 1` bytes in `buffer`, with the time, the network and the
-- shared state that the handler finds, what `send` takes of the response, and the string in
-- `msg.raw_buffer` before the message is parsed.
pub record Incoming (F : Type 0) : Type 0 where
  pub now : ℕ
  pub net : Network
  pub state : Server F
  pub buffer : Bytes
  pub count : ℕ
  pub send : ℕ → Bytes → ℤ
  pub stale : Bytes

-- One round of the loop: what it did to the shared state, what it sent, and what it logged.
pub record Turn (F : Type 0) : Type 0 where
  pub handled : Handled F
  pub sent : Sent
  pub log : List LogCall

-- The string in `msg.raw_buffer` behind the call of `protocol_parse`.
unfoldable pub raw_message : Bytes → ℤ → Bytes → Bytes
raw_message buffer bytes_received stale = elim (protocol_parse buffer bytes_received) [
  | none ↦ stale
  | some msg ↦ c_str msg.raw_buffer
]

abbrev pub is_complete : Sent → Bool
is_complete (complete b) = true
is_complete _ = false

-- What the call of `recv` that ends the connection returned.
pub data Ending : Type 0 where
  disconnected receive_failed : Ending

-- What the thread did when it returns.
pub record Session (F : Type 0) : Type 0 where
  pub turns : List (Turn F)
  pub log : List LogCall
  pub operators : Operators
  pub resources : List Resource

abbrev pub info : Client → Bytes → Bytes → LogCall
info client message response = logger_event (codes "INFO") client.ip client.port message response

-- After a `break` the variable `bytes_received` still holds a positive count.
unfoldable pub end_log : Client → Bool → Ending → LogCall
end_log client false disconnected = info client (codes "Client disconnected") []
end_log client false receive_failed = info client (codes "Receive error or timeout") []
end_log client true ending = info client (codes "Receive error or timeout") []

module _ {F : Type 0} ⦃d : Doubles F⦄ (client : Client) where
  -- The response goes out under `write_mutex` and is logged; `send_complete_response` logs a failure.
  unfoldable pub turn : Incoming F → Turn F
  turn i =
      let h = handle_message i.now i.net client i.buffer (pos (suc i.count)) i.state in
      let raw = raw_message i.buffer (pos (suc i.count)) i.stale in
      let sent = send_complete_response i.send h.response in
      record {
        handled = h;
        sent = sent;
        log =
            h.log
            ++ (if is_complete sent
                then info client raw h.response
                else logger_event (codes "ERROR") client.ip client.port raw
                    (codes "Error sending response"))
              ∷ [];
      }

  -- The loop ends when nothing more is received, or by `break` after a response that did not go out.
  unfoldable pub receive_loop : List (Incoming F) → List (Turn F)
  receive_loop [] = []
  receive_loop (i ∷ is) =
      let t = turn i in
      let rest = receive_loop is in if is_complete t.sent then t ∷ rest else t ∷ []

  abbrev pub turn_logs : List (Turn F) → List LogCall
  turn_logs [] = []
  turn_logs (t ∷ ts) = t.log ++ turn_logs ts

  -- Whether the loop was left by `break`.
  abbrev pub broken_off : List (Turn F) → Bool
  broken_off [] = false
  broken_off (t ∷ ts) = if is_complete t.sent then broken_off ts else true

  -- The thread. The flag is whether `setsockopt` set the timeout; `o` are the operators that its end
  -- finds. The block that logs the end stands twice in the source.
  unfoldable pub handle_client : Bool → List (Incoming F) → Ending → Operators → Session F
  handle_client timeout_set messages ending o =
      let turns = receive_loop messages in
      let end = end_log client (broken_off turns) ending in
      record {
        turns = turns;
        log =
            (if timeout_set
              then []
              else logger_error (codes "Failed to configure receive timeout") ∷ [])
            ++ (info client (codes "Connection started") (codes "type=unknown")
                ∷ (turn_logs turns ++ (end ∷ end ∷ [])));
        operators = remove_operator client.client_fd o;
        resources =
            closes_socket client.client_fd
            ∷ destroys_mutex client.mutex
            ∷ frees_context client.mutex
            ∷ [];
      }
