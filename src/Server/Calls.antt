-- ===== src/Server/Calls.antt =====
-- The steps of the threads of server/src/server.c on the state that they share. Each function of the
-- sensor table, of the alert engine and of the operators holds its mutex throughout and is one call;
-- a run is any sequence of calls, so it covers every interleaving of the threads, also within the
-- handling of a message.
pub mod Stable
use iot_monitoring_system.Base.{
  ℕ, zero, suc, List, some, Bytes, NoNul, ℤ, pos, leb, Bool-cases, Option-cases, inl, inr, Doubles,
  LogCall,
}
use iot_monitoring_system.Protocol.Parse.{
  CommandType, ParsedMessage, register_sensor, measurement, login, argc, arg, protocol_parse,
}
use iot_monitoring_system.SensorManager.{
  sensor_manager_register, sensor_manager_add_measurement, sensor_manager_get_sensor_type,
}
use iot_monitoring_system.SensorManager.Invariant as TableLaws
use iot_monitoring_system.AlertEngine.Check.{alert_engine_check_measurement}
use iot_monitoring_system.AlertEngine.Invariant as EngineLaws
use iot_monitoring_system.AuthClient.{Network}
use iot_monitoring_system.Server.Operators.{register_operator, remove_operator}
use iot_monitoring_system.Server.Operators.Delivery as OperatorLaws
use iot_monitoring_system.Server.Operators.Sessions.{remove_operator-IsValid}
use iot_monitoring_system.Server.Dispatch.{
  Server, Client, dispatch, handle_message, handle_register_sensor, handle_measurement,
  raise_alerts, after_store, after_auth, handle_login, handle_operator_identify,
}
use iot_monitoring_system.Server.Dispatch.Invariant.{IsValid}
use iot_monitoring_system.Server.Dispatch.Measurement.{arg-NoNul}

module _ {F : Type 0} ⦃d : Doubles F⦄ where
  pub data Call (s : Server F) : Server F → Type 0 where
    registers :
        (now : ℕ) (type id : Bytes)
        → NoNul type
        → NoNul id
        → Call s
            (record s { table = (sensor_manager_register now (some type) (some id) s.table).1 })
    stores :
        (now : ℕ) (id : Bytes) (value : F) (unit : Bytes)
        → NoNul unit
        → Call s (record s {
          table = (sensor_manager_add_measurement now (some id) value (some unit) s.table).1;
        })
    checks :
        (now : ℕ) (id type : Bytes) (value : F)
        → Call s (record s {
          engine = (alert_engine_check_measurement now (some id) (some type) value s.engine).1;
        })
    logs_in :
        (fd : ℤ) (mutex : ℕ)
        → Call s (record s { operators = (register_operator fd mutex s.operators).0 })
    leaves : (fd : ℤ) → Call s (record s { operators = remove_operator fd s.operators })

  pub data Calls (s : Server F) : Server F → Type 0 where
    here : Calls s s
    next : {t u : Server F} → Calls s t → Call t u → Calls s u

  Call-IsValid : {s t : Server F} → Call s t → IsValid s → IsValid t
  Call-IsValid (registers now type id ht hi) v = record {
    table = TableLaws.register-IsValid now (some type) (some id) v.table;
    engine = v.engine;
    operators = v.operators;
  }
  Call-IsValid (stores now id value unit hu) v = record {
    table = TableLaws.add_measurement-IsValid now (some id) value (some unit) v.table;
    engine = v.engine;
    operators = v.operators;
  }
  Call-IsValid (checks now id type value) v = record {
    table = v.table;
    engine = EngineLaws.check_measurement-IsValid now (some id) (some type) value v.engine;
    operators = v.operators;
  }
  Call-IsValid (logs_in fd mutex) v = record {
    table = v.table;
    engine = v.engine;
    operators = OperatorLaws.register_operator-IsValid fd mutex v.operators;
  }
  Call-IsValid (leaves fd) v = record {
    table = v.table;
    engine = v.engine;
    operators = remove_operator-IsValid fd v.operators;
  }

  -- From a valid state, every state that the threads reach by their calls, however these are
  -- interleaved, is valid.
  pub Calls-IsValid : {s t : Server F} → IsValid s → Calls s t → IsValid t
  Calls-IsValid v here = v
  Calls-IsValid v (next cs c) = Call-IsValid c (Calls-IsValid v cs)

  abbrev one : {s t : Server F} → Call s t → Calls s t
  one c = next here c

  raise_alerts-Calls :
      (now : ℕ) (msg : ParsedMessage) (value : F) {s t : Server F}
      → Calls s t
      → Calls s (raise_alerts now msg value t).server
  unfolding raise_alerts
  raise_alerts-Calls now msg value {t} cs =
      elim (Option-cases (sensor_manager_get_sensor_type (some (arg msg 0)) t.table)) [
        | inl e ↦ rw (e, raise_alerts) cs
        | inr (type, e) ↦ rw (e, raise_alerts) (next cs (checks now (arg msg 0) type value))
      ]

  after_store-Calls :
      (r : ℤ) (now : ℕ) (msg : ParsedMessage) (value : F) (log : List LogCall) {s t : Server F}
      → Calls s t
      → Calls s (after_store r now msg value log t).server
  unfolding after_store
  after_store-Calls (pos zero) now msg value log cs = raise_alerts-Calls now msg value cs
  after_store-Calls _ now msg value log cs = cs

  after_auth-Calls :
      (r : ℤ) (role : Bytes) (client : Client) (s : Server F)
      → Calls s (after_auth r role client s).server
  unfolding after_auth
  after_auth-Calls (pos (suc zero)) role client s = one (logs_in client.client_fd client.mutex)
  after_auth-Calls (pos zero) role client s = here
  after_auth-Calls _ role client s = here

  dispatch-Calls :
      (now : ℕ) (net : Network) (client : Client) (c : CommandType) (msg : ParsedMessage)
      (s : Server F)
      → Calls s (dispatch now net client c msg s).server
  unfolding dispatch handle_operator_identify handle_register_sensor handle_measurement handle_login
  dispatch-Calls now net client register_sensor msg s = elim (Bool-cases (leb 2 (argc msg))) [
    | inl enough ↦
        rw enough (one (registers now (arg msg 1) (arg msg 0) (arg-NoNul msg 1) (arg-NoNul msg 0)))
    | inr few ↦ rw few here
  ]
  dispatch-Calls now net client measurement msg s = elim (Bool-cases (leb 3 (argc msg))) [
    | inl enough ↦ rw enough (
        after_store-Calls _ now msg _ _
          (one (stores now (arg msg 0) (d.atof (arg msg 1)) (arg msg 2) (arg-NoNul msg 2))))
    | inr few ↦ rw few here
  ]
  dispatch-Calls now net client login msg s = elim (Bool-cases (leb 2 (argc msg))) [
    | inl enough ↦ rw enough (after_auth-Calls _ _ client s)
    | inr few ↦ rw few here
  ]
  dispatch-Calls now net client _ msg s = here

  -- Handling a message is a run of these calls, whatever the message is: it changes the shared state
  -- by nothing else.
  pub handle_message-Calls :
      (now : ℕ) (net : Network) (client : Client) (buffer : Bytes) (bytes_received : ℤ)
      (s : Server F)
      → Calls s (handle_message now net client buffer bytes_received s).server
  unfolding handle_message
  handle_message-Calls now net client buffer bytes_received s =
      elim (Option-cases (protocol_parse buffer bytes_received)) [
        | inl e ↦ rw (e, handle_message) here
        | inr (msg, e) ↦ rw (e, handle_message) (dispatch-Calls now net client msg.type msg s)
      ]
