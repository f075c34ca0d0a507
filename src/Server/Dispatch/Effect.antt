-- ===== src/Server/Dispatch/Effect.antt =====
-- What a message does to the state that the threads of server/src/server.c share, against the
-- abstract state: the entries of the sensors, the alerts of the history, and the operators.
use iot_monitoring_system.Base.{
  ℕ, zero, ◌≤◌, ◌≡◌, refl, sym, ap, ◌∙◌, List, ◌++◌, map, Option, none, some, Bool, true, false,
  ◌&&◌, Bytes, keep_last, leb, ℤ, pos, negsuc, Doubles, arith, if◌then◌else◌, Bool-cases,
  Option-cases, inl, inr, LogCall,
}
use iot_monitoring_system.Protocol.Parse.{
  CommandType, register_sensor, measurement, login, ParsedMessage, argc, arg, protocol_parse,
}
use iot_monitoring_system.SensorManager.{sensor_manager_get_sensor_type}
use iot_monitoring_system.SensorManager.Registry.{
  Entry, view, find, add, measure, measure-known, measure-unknown,
}
use iot_monitoring_system.SensorManager.Refinement.{
  register_refines, add_measurement_refines, succeeds,
}
use iot_monitoring_system.AlertEngine.{max_alerts}
use iot_monitoring_system.AlertEngine.Recent.{Alert, alerts, raised}
use iot_monitoring_system.AuthClient.{Network}
use iot_monitoring_system.AuthClient.Outcome.{auth_client_verify_lem}
use iot_monitoring_system.Server.Operators.{Operators, register_operator}
use iot_monitoring_system.Server.Dispatch.{
  Server, Client, dispatch, handle_message, handle_register_sensor, handle_measurement,
  raise_alerts, after_store, after_auth, handle_login, handle_operator_identify,
}
use iot_monitoring_system.Server.Dispatch.Invariant.{IsValid}
use iot_monitoring_system.Server.Dispatch.Measurement.{arg-NoNul, hits, measurement_handled}
use iot_monitoring_system.Server.Dispatch.Login.{is_reached, is_granted}

-- The shared state as its users see it.
pub record State (F : Type 0) : Type 0 where
  pub entries : List (Entry F)
  pub history : List (Alert F)
  pub operators : Operators

abbrev pub state : {F : Type 0} → Server F → State F
state s = record {
  entries = view s.table;
  history = alerts s.engine.history;
  operators = s.operators;
}

module _ {F : Type 0} ⦃d : Doubles F⦄ (now : ℕ) (net : Network) (client : Client)
    (msg : ParsedMessage) (s : Server F) where
  -- The history after a measurement of a sensor with this entry, if it has one.
  abbrev history_after : Option (Entry F) → List (Alert F)
  history_after none = alerts s.engine.history
  history_after (some e) = keep_last max_alerts (
      alerts s.engine.history
      ++ map (raised now (arg msg 0) e.type (d.atof (arg msg 1)))
          (hits now msg (d.atof (arg msg 1)) e.type s))

  -- REGISTER_SENSOR adds the id of its first argument with the type of its second. MEASUREMENT stores
  -- its value and unit and raises the alerts of the sensor. LOGIN registers the client of the
  -- connection when a role is granted. With fewer arguments, and for every other command, nothing
  -- changes.
  abbrev pub state_after : CommandType → State F
  state_after register_sensor =
      if leb 2 (argc msg)
      then record (state s) { entries = (add now (arg msg 1) (arg msg 0) (view s.table)).1 }
      else state s
  state_after measurement =
      if leb 3 (argc msg)
      then record (state s) {
        entries = (measure now (arg msg 0) (d.atof (arg msg 1)) (arg msg 2) (view s.table)).1;
        history = history_after (find (arg msg 0) (view s.table));
      }
      else state s
  state_after login =
      if leb 2 (argc msg) && (is_reached net client msg s && is_granted net client msg s)
      then record (state s) {
        operators = (register_operator client.client_fd client.mutex s.operators).0;
      }
      else state s
  state_after _ = state s

module _ {F : Type 0} ⦃d : Doubles F⦄ where
  raise_alerts-operators :
      (now : ℕ) (msg : ParsedMessage) (value : F) (s : Server F)
      → (raise_alerts now msg value s).server.operators ≡ s.operators
  unfolding raise_alerts
  raise_alerts-operators now msg value s =
      elim (Option-cases (sensor_manager_get_sensor_type (some (arg msg 0)) s.table)) [
        | inl e ↦ rw (e, raise_alerts)
        | inr (type, e) ↦ rw (e, raise_alerts)
      ]

  after_store-operators :
      (r : ℤ) (now : ℕ) (msg : ParsedMessage) (value : F) (log : List LogCall) (s : Server F)
      → (after_store r now msg value log s).server.operators ≡ s.operators
  unfolding after_store
  after_store-operators (pos zero) now msg value log s = raise_alerts-operators now msg value s
  after_store-operators _ now msg value log s = refl

  after_store-refused :
      (r : ℤ) (now : ℕ) (msg : ParsedMessage) (value : F) (log : List LogCall) (s : Server F)
      → succeeds r ≡ false
      → (after_store r now msg value log s).server ≡ s
  unfolding after_store
  after_store-refused (pos zero) now msg value log s h = cc
  after_store-refused _ now msg value log s h = refl

module _ {F : Type 0} ⦃d : Doubles F⦄ (now : ℕ) (net : Network) (client : Client)
    (msg : ParsedMessage) {s : Server F} (v : IsValid s) where
  measurement-known :
      {e : Entry F}
      → 3 ≤ argc msg
      → find (arg msg 0) (view s.table) ≡ some e
      → state (handle_measurement now msg s).server ≡ state_after now net client msg s measurement
  unfolding handle_measurement
  measurement-known {e} enough known =
      let handled = measurement_handled now msg v enough known in
      let entries =
        handled.1
        ∙ sym (
            ap (λ p. p.1)
              (measure-known now (arg msg 0) (d.atof (arg msg 1)) (arg msg 2) (view s.table)
                known)) in
      let history = handled.2 ∙ ap (history_after now net client msg s) (sym known) in
      let test : leb 3 (argc msg) ≡ true = ground arith in
      let kept : (handle_measurement now msg s).server.operators ≡ s.operators =
        rw (test, handle_measurement) (after_store-operators _ now msg _ _ _) in
      rw test (cc (entries, history, kept))

  measurement-unknown :
      3 ≤ argc msg
      → find (arg msg 0) (view s.table) ≡ none
      → state (handle_measurement now msg s).server ≡ state_after now net client msg s measurement
  unfolding handle_measurement
  measurement-unknown enough unknown =
      let refined =
        add_measurement_refines now (arg msg 0) (d.atof (arg msg 1)) (arg msg 2) (arg-NoNul msg 2)
          v.table in
      let refused =
        refined
        ∙ measure-unknown now (arg msg 0) (d.atof (arg msg 1)) (arg msg 2) (view s.table) unknown in
      let test : leb 3 (argc msg) ≡ true = ground arith in
      rw (test, handle_measurement)
        (ap state (after_store-refused _ now msg _ _ _ (ap (λ p. p.0) refused))
          ∙ cc (ap (λ p. p.1) refined, ap (history_after now net client msg s) unknown))

  measurement-state :
      state (handle_measurement now msg s).server ≡ state_after now net client msg s measurement
  unfolding handle_measurement
  measurement-state = elim (Bool-cases (leb 3 (argc msg))) [
    | inl enough ↦ elim (Option-cases (find (arg msg 0) (view s.table))) [
      | inl unknown ↦ measurement-unknown (ground arith) unknown
      | inr (e, known) ↦ measurement-known (ground arith) known
    ]
    | inr few ↦ rw (few, handle_measurement) refl
  ]

  register-state :
      state (handle_register_sensor now msg s).server
      ≡ state_after now net client msg s register_sensor
  unfolding handle_register_sensor
  register-state = elim (Bool-cases (leb 2 (argc msg))) [
    | inl enough ↦
        rw (enough, handle_register_sensor)
          (ap (λ p. record (state s) { entries = p.1 })
            (register_refines now (arg msg 1) (arg msg 0) (arg-NoNul msg 1) (arg-NoNul msg 0)
              v.table))
    | inr few ↦ rw (few, handle_register_sensor) refl
  ]

  after_auth-state :
      (reached granted : Bool) (result : ℤ) (role : Bytes)
      → result ≡ (if reached then (if granted then pos 1 else pos 0) else negsuc 0)
      → state (after_auth result role client s).server ≡ (
          if reached && granted
          then record (state s) {
            operators = (register_operator client.client_fd client.mutex s.operators).0;
          }
          else state s)
  unfolding after_auth
  after_auth-state false granted result role e = rw e refl
  after_auth-state true false result role e = rw e refl
  after_auth-state true true result role e = rw e refl

  login-state :
      state (handle_login net client msg s).server ≡ state_after now net client msg s login
  unfolding handle_login
  login-state = elim (Bool-cases (leb 2 (argc msg))) [
    | inl enough ↦
        let (sockets, result, role, short) =
          auth_client_verify_lem net (arg msg 0) (arg msg 1) 64 (omega arith) in
        rw (enough, handle_login)
          (after_auth-state (is_reached net client msg s) (is_granted net client msg s) _ _ result)
    | inr few ↦ rw (few, handle_login) refl
  ]

  dispatch-state :
      (c : CommandType)
      → state (dispatch now net client c msg s).server ≡ state_after now net client msg s c
  unfolding dispatch handle_operator_identify
  dispatch-state register_sensor = register-state
  dispatch-state measurement = measurement-state
  dispatch-state login = login-state
  dispatch-state _ = refl

-- In a valid state, whatever bytes are received: REGISTER_SENSOR with two arguments or more adds the
-- id of its first with the type of its second to the entries of the sensors, as `add` does;
-- MEASUREMENT with three or more stores the value and the unit in the entry of its sensor, as
-- `measure` does, and adds to the history the alerts of the thresholds crossed, when there is such an
-- entry; LOGIN with two or more registers the client of this connection when a host is reached that
-- grants it a role. These change nothing else of the entries, the history and the operators, and
-- every other message leaves all three as they were.
pub handle_message_refines :
    {F : Type 0} ⦃d : Doubles F⦄ (now : ℕ) (net : Network) (client : Client) (buffer : Bytes)
    (bytes_received : ℤ) {s : Server F}
    → IsValid s
    → state (handle_message now net client buffer bytes_received s).server
      ≡ elim (protocol_parse buffer bytes_received) [
        | none ↦ state s
        | some msg ↦ state_after now net client msg s msg.type
      ]
unfolding handle_message
handle_message_refines now net client buffer bytes_received v =
    elim (Option-cases (protocol_parse buffer bytes_received)) [
      | inl e ↦ rw (e, handle_message) refl
      | inr (msg, e) ↦ rw (e, handle_message) (dispatch-state now net client msg v msg.type)
    ]
