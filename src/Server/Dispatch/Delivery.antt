-- ===== src/Server/Dispatch/Delivery.antt =====
-- From a login to an alert: the registry of operators and the MEASUREMENT requests of
-- server/src/server.c together.
use iot_monitoring_system.Base.{
  List, [], ℕ, zero, suc, ◌≤◌, ◌<◌, ◌≡◌, refl, ap, ◌∙◌, some, Bytes, ℤ, pos, length, Doubles, leb,
  if◌then◌else◌, arith,
}
use iot_monitoring_system.Protocol.Parse.{ParsedMessage, argc, arg}
use iot_monitoring_system.SensorManager.Registry.{Entry, view, find}
use iot_monitoring_system.Server.Operators.{max_operators, register_operator, broadcast_alert, Send}
use iot_monitoring_system.Server.Operators.Delivery.{sends_to, register_operator-IsValid}
use iot_monitoring_system.Server.Operators.Sessions.{one_login}
use iot_monitoring_system.Server.Dispatch.{Server, handle_measurement, alerta}
use iot_monitoring_system.Server.Dispatch.Invariant.{IsValid}
use iot_monitoring_system.Server.Dispatch.Measurement.{hits, measurement_handled}

-- A client is sent the alert once, if there is one at all.
sends_to-guard :
    (client : ℤ) (sends : List Send) (n : ℕ)
    → sends_to client sends ≡ 1
    → sends_to client (if leb 1 n then sends else []) ≡ (if leb 1 n then 1 else 0)
sends_to-guard client sends zero h = refl
sends_to-guard client sends (suc n) h = ground arith

-- The state after the client with the descriptor `fd + 1` and the mutex `m` logged in.
abbrev pub with_operator : {F : Type 0} → ℕ → ℕ → Server F → Server F
with_operator fd m s = record s { operators = (register_operator (pos (suc fd)) m s.operators).0 }

module _ {F : Type 0} ⦃d : Doubles F⦄ (now fd m : ℕ) (msg : ParsedMessage) where
  abbrev pub measurement_text : Entry F → Bytes
  measurement_text e = alerta (arg msg 0) e.type (d.atof (arg msg 1)) (arg msg 2)

  -- In a valid state, an operator that was sent nothing before logs in, with a slot free. The next measurement of a
  -- registered sensor is sent to that operator as one alert when it crosses a threshold of the
  -- sensor's type, and as none when it crosses no threshold.
  pub alert_reaches_operator :
      {s : Server F} {e : Entry F}
      → IsValid s
      → 3 ≤ argc msg
      → s.operators.operator_count < max_operators
      → sends_to (pos (suc fd)) (broadcast_alert (measurement_text e) s.operators) ≡ 0
      → find (arg msg 0) (view s.table) ≡ some e
      → sends_to (pos (suc fd)) (handle_measurement now msg (with_operator fd m s)).sends
        ≡ (if leb 1 (length (hits now msg (d.atof (arg msg 1)) e.type s)) then 1 else 0)
  alert_reaches_operator {s} {e} v enough room new known =
      let text = measurement_text e in
      let once = (one_login text fd m v.operators new room).0 in
      let v' : IsValid (with_operator fd m s) = record {
        table = v.table;
        engine = v.engine;
        operators = register_operator-IsValid (pos (suc fd)) m v.operators;
      } in
      let handled = measurement_handled now msg v' enough known in
      ap (sends_to (pos (suc fd))) handled.3
      ∙ sends_to-guard (pos (suc fd)) (broadcast_alert text (with_operator fd m s).operators)
          (length (hits now msg (d.atof (arg msg 1)) e.type s)) once
