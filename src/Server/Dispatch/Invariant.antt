-- ===== src/Server/Dispatch/Invariant.antt =====
-- The invariant of the shared state of server/src/server.c, under the messages of clients.
use iot_monitoring_system.Base.{
  ℕ, zero, suc, some, Bytes, ℤ, pos, Doubles, leb, Bool-cases, Option-cases, List, LogCall, inl,
  inr,
}
use iot_monitoring_system.Protocol.Parse.{
  CommandType, register_sensor, measurement, login, ParsedMessage, argc, arg, protocol_parse,
}
use iot_monitoring_system.SensorManager.{sensor_manager_get_sensor_type}
use iot_monitoring_system.SensorManager.Invariant as TableLaws
use iot_monitoring_system.AlertEngine.Invariant as EngineLaws
use iot_monitoring_system.Server.Operators.Delivery as OperatorLaws
use iot_monitoring_system.AuthClient.{Network}
use iot_monitoring_system.Server.Dispatch.{
  Server, Client, handle_register_sensor, handle_measurement, raise_alerts, after_store, after_auth,
  handle_login, dispatch, handle_message, handle_operator_identify,
}

module _ {F : Type 0} where
  pub record IsValid (s : Server F) : Type 0 where
    pub table : TableLaws.IsValid s.table
    pub engine : EngineLaws.IsValid s.engine
    pub operators : OperatorLaws.IsValid s.operators

module _ {F : Type 0} ⦃d : Doubles F⦄ where
  handle_register_sensor-IsValid :
      (now : ℕ) (msg : ParsedMessage) {s : Server F}
      → IsValid s
      → IsValid (handle_register_sensor now msg s).server
  unfolding handle_register_sensor
  handle_register_sensor-IsValid now msg {s} v = elim (Bool-cases (leb 2 (argc msg))) [
    | inl enough ↦
        rw (enough, handle_register_sensor)
          (record {
            table = TableLaws.register-IsValid now (some (arg msg 1)) (some (arg msg 0)) v.table;
            engine = v.engine;
            operators = v.operators;
          })
    | inr few ↦ rw (few, handle_register_sensor) v
  ]

  raise_alerts-IsValid :
      (now : ℕ) (msg : ParsedMessage) (value : F) {s : Server F}
      → IsValid s
      → IsValid (raise_alerts now msg value s).server
  unfolding raise_alerts
  raise_alerts-IsValid now msg value {s} v =
      elim (Option-cases (sensor_manager_get_sensor_type (some (arg msg 0)) s.table)) [
        | inl e ↦ rw (e, raise_alerts) v
        | inr (type, e) ↦
            rw (e, raise_alerts)
              (record {
                table = v.table;
                engine =
                    EngineLaws.check_measurement-IsValid now (some (arg msg 0)) (some type) value
                      v.engine;
                operators = v.operators;
              })
      ]

  after_store-IsValid :
      (r : ℤ) (now : ℕ) (msg : ParsedMessage) (value : F) (log : List LogCall) {s : Server F}
      → IsValid s
      → IsValid (after_store r now msg value log s).server
  unfolding after_store
  after_store-IsValid (pos zero) now msg value log v = raise_alerts-IsValid now msg value v
  after_store-IsValid _ now msg value log v = v

  handle_measurement-IsValid :
      (now : ℕ) (msg : ParsedMessage) {s : Server F}
      → IsValid s
      → IsValid (handle_measurement now msg s).server
  unfolding handle_measurement
  handle_measurement-IsValid now msg {s} v = elim (Bool-cases (leb 3 (argc msg))) [
    | inl enough ↦
        rw (enough, handle_measurement)
          (after_store-IsValid _ now msg _ _ (record {
            table =
                TableLaws.add_measurement-IsValid now (some (arg msg 0)) (d.atof (arg msg 1))
                  (some (arg msg 2)) v.table;
            engine = v.engine;
            operators = v.operators;
          }))
    | inr few ↦ rw (few, handle_measurement) v
  ]

  after_auth-IsValid :
      (r : ℤ) (role : Bytes) (client : Client) {s : Server F}
      → IsValid s
      → IsValid (after_auth r role client s).server
  unfolding after_auth
  after_auth-IsValid (pos (suc zero)) role client v = record {
    table = v.table;
    engine = v.engine;
    operators = OperatorLaws.register_operator-IsValid client.client_fd client.mutex v.operators;
  }
  after_auth-IsValid (pos zero) role client v = v
  after_auth-IsValid _ role client v = v

  handle_login-IsValid :
      (net : Network) (client : Client) (msg : ParsedMessage) {s : Server F}
      → IsValid s
      → IsValid (handle_login net client msg s).server
  unfolding handle_login
  handle_login-IsValid net client msg {s} v = elim (Bool-cases (leb 2 (argc msg))) [
    | inl enough ↦ rw (enough, handle_login) (after_auth-IsValid _ _ client v)
    | inr few ↦ rw (few, handle_login) v
  ]

  dispatch-IsValid :
      (now : ℕ) (net : Network) (client : Client) (c : CommandType) (msg : ParsedMessage)
      {s : Server F}
      → IsValid s
      → IsValid (dispatch now net client c msg s).server
  unfolding dispatch handle_operator_identify
  dispatch-IsValid now net client register_sensor msg v = handle_register_sensor-IsValid now msg v
  dispatch-IsValid now net client measurement msg v = handle_measurement-IsValid now msg v
  dispatch-IsValid now net client login msg v = handle_login-IsValid net client msg v
  dispatch-IsValid now net client _ msg v = v

  -- From a valid state, whatever bytes a client sends, and whatever the authentication service
  -- answers, the sensor table, the alert engine and the registry of operators stay valid: their
  -- counts stay within their arrays, and every `char` array that they read as a string ends in a
  -- NUL.
  pub handle_message-IsValid :
      (now : ℕ) (net : Network) (client : Client) (buffer : Bytes) (bytes_received : ℤ)
      {s : Server F}
      → IsValid s
      → IsValid (handle_message now net client buffer bytes_received s).server
  unfolding handle_message
  handle_message-IsValid now net client buffer bytes_received {s} v =
      elim (Option-cases (protocol_parse buffer bytes_received)) [
        | inl e ↦ rw (e, handle_message) v
        | inr (msg, e) ↦ rw (e, handle_message) (dispatch-IsValid now net client msg.type msg v)
      ]
