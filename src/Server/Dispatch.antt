-- ===== src/Server/Dispatch.antt =====
-- The body of the loop of `handle_client` (server/src/server.c): one received message.
-- The threads of the clients share the sensor table, the alert engine and the operators; every
-- function on these is one step, and a request is handled here with no other between its steps.
pub mod Invariant
pub mod Measurement
pub mod Requests
pub mod Delivery
pub mod Listings
pub mod Login
pub mod Effect
use iot_monitoring_system.Base.{
  ℕ, zero, suc, List, [], ◌∷◌, ◌++◌, none, some, true, Bytes, codes, snprintf, leb, if◌then◌else◌,
  ℤ, pos, negsuc, LogCall, logger_info, logger_event, Doubles, decimal,
}
use iot_monitoring_system.Protocol.Parse.{
  CommandType, unknown, register_sensor, measurement, login, get_sensors, get_status, get_alerts,
  ping, operator_identify, ParsedMessage, argc, arg, protocol_parse,
}
use iot_monitoring_system.Protocol.Reply.{
  crlf, protocol_build_ok, protocol_build_error, protocol_build_sensors_list,
  protocol_build_alerts_list, protocol_build_status,
}
use iot_monitoring_system.SensorManager.{
  Table, sensor_manager_register, sensor_manager_add_measurement, sensor_manager_get_active_sensors,
  sensor_manager_get_sensor_type,
}
use iot_monitoring_system.AlertEngine.{Engine}
use iot_monitoring_system.AlertEngine.Check.{alert_engine_check_measurement}
use iot_monitoring_system.AlertEngine.Report.{alert_engine_get_active_alerts}
use iot_monitoring_system.AuthClient.{Network, auth_client_verify}
use iot_monitoring_system.Server.Operators.{Operators, register_operator, broadcast_alert, Send}

pub record Server (F : Type 0) : Type 0 where
  pub table : Table F
  pub engine : Engine F
  pub operators : Operators

-- client_context_t; `mutex` names its `write_mutex`.
pub record Client : Type 0 where
  pub client_fd : ℤ
  pub ip : Bytes
  pub port : ℕ
  pub mutex : ℕ

-- What handling a message does: the response, the state after it, what it sends to operators, and
-- what it logs.
pub record Handled (F : Type 0) : Type 0 where
  pub response : Bytes
  pub server : Server F
  pub sends : List Send
  pub log : List LogCall

abbrev pub error_response : Bytes → Bytes → Bytes
error_response error_code desc = protocol_build_error (some error_code) (some desc)

abbrev pub missing_arguments : Bytes
missing_arguments = error_response (codes "400") (codes "Missing arguments")

abbrev pub not_found : Bytes
not_found = error_response (codes "404") (codes "Command not found")

-- A response that changes nothing.
abbrev pub answer : {F : Type 0} → Server F → Bytes → Handled F
answer s response = record { response = response; server = s; sends = []; log = [] }

-- `if (alerts_triggered > 0) broadcast_alert(alert_msg)`
abbrev pub alert_sends : ℤ → Bytes → Operators → List Send
alert_sends (pos (suc n)) alert_msg o = broadcast_alert alert_msg o
alert_sends (pos zero) alert_msg o = []
alert_sends (negsuc n) alert_msg o = []

-- `snprintf(status_text, …, "%d sensors active - System OK", 5)`
unfoldable pub status_response : Bytes
status_response =
    protocol_build_status (some (snprintf 128 (decimal 5 ++ codes " sensors active - System OK")))

module _ {F : Type 0} ⦃d : Doubles F⦄ where
  unfoldable pub handle_register_sensor : ℕ → ParsedMessage → Server F → Handled F
  handle_register_sensor now msg s =
      if leb 2 (argc msg)
      then (let (result, t, log) =
            sensor_manager_register now (some (arg msg 1)) (some (arg msg 0)) s.table in
          record {
            response = elim result [
              | pos zero ↦ protocol_build_ok (some (codes "SENSOR_REGISTERED"))
              | _ ↦ error_response (codes "500") (codes "Failed to register sensor")
            ];
            server = record s { table = t };
            sends = [];
            log = log;
          })
      else answer s missing_arguments

  -- "ALERTA %s,%s,%.2f,%s\r\n" into `alert_msg[256]`
  unfoldable pub alerta : Bytes → Bytes → F → Bytes → Bytes
  alerta sensor_id sensor_type value unit = snprintf 256 (
      codes "ALERTA "
      ++ (sensor_id
          ++ (b',' ∷ (sensor_type ++ (b',' ∷ (d.format value ++ (b',' ∷ (unit ++ crlf))))))))

  -- What follows a stored measurement: the sensor's type, the check, and the broadcast.
  unfoldable pub raise_alerts : ℕ → ParsedMessage → F → Server F → Handled F
  raise_alerts now msg value s = elim (sensor_manager_get_sensor_type (some (arg msg 0)) s.table) [
    | none ↦ answer s (protocol_build_ok (some (codes "MEASUREMENT_RECEIVED")))
    | some sensor_type ↦
        let (alerts_triggered, e, log) =
          alert_engine_check_measurement now (some (arg msg 0)) (some sensor_type) value s.engine in
        record {
          response = protocol_build_ok (some (codes "MEASUREMENT_RECEIVED"));
          server = record s { engine = e };
          sends =
              alert_sends alerts_triggered (alerta (arg msg 0) sensor_type value (arg msg 2))
                s.operators;
          log = log;
        }
  ]

  -- The branch on the result of `sensor_manager_add_measurement`.
  unfoldable pub after_store : ℤ → ℕ → ParsedMessage → F → List LogCall → Server F → Handled F
  after_store (pos zero) now msg value log s =
      let h = raise_alerts now msg value s in record h { log = log ++ h.log }
  after_store _ now msg value log s = record {
    response = error_response (codes "404") (codes "Sensor not registered");
    server = s;
    sends = [];
    log = log;
  }

  unfoldable pub handle_measurement : ℕ → ParsedMessage → Server F → Handled F
  handle_measurement now msg s =
      if leb 3 (argc msg)
      then (let value = d.atof (arg msg 1) in
          let (result, t, log) =
            sensor_manager_add_measurement now (some (arg msg 0)) value (some (arg msg 2))
              s.table in
          after_store result now msg value log (record s { table = t }))
      else answer s missing_arguments

  -- The branch on `auth_result`.
  unfoldable pub after_auth : ℤ → Bytes → Client → Server F → Handled F
  after_auth (pos (suc zero)) role client s =
      let (o, log) = register_operator client.client_fd client.mutex s.operators in
      record {
        response = protocol_build_ok (some (snprintf 128 (codes "ROLE_" ++ role)));
        server = record s { operators = o };
        sends = [];
        log =
            log
            ++ logger_info (codes "Operator successfully logged in and registered for alerts") ∷ [];
      }
  after_auth (pos zero) role client s =
      answer s (error_response (codes "401") (codes "Invalid credentials"))
  after_auth _ role client s =
      answer s (error_response (codes "503") (codes "Auth service unavailable"))

  unfoldable pub handle_login : Network → Client → ParsedMessage → Server F → Handled F
  handle_login net client msg s =
      if leb 2 (argc msg)
      then (let (auth_result, role, calls) = auth_client_verify net (arg msg 0) (arg msg 1) 64 in
          after_auth auth_result role client s)
      else answer s missing_arguments

  unfoldable pub handle_operator_identify : Client → Server F → Handled F
  handle_operator_identify client s =
      record (answer s (protocol_build_ok (some (codes "OPERATOR_CONNECTED")))) {
        log =
            logger_event (codes "INFO") client.ip client.port (codes "OPERATOR_IDENTIFY")
              (codes "Operator supervisor connected")
            ∷ [];
      }

  -- Both lists are written to a local array of 1024 bytes.
  unfoldable pub sensors_response : Server F → Bytes
  sensors_response s = elim (sensor_manager_get_active_sensors true (pos 1024) s.table) [
    | none ↦ error_response (codes "500") (codes "Failed to get sensors")
    | some list ↦ protocol_build_sensors_list (some list)
  ]

  unfoldable pub alerts_response : Server F → Bytes
  alerts_response s = elim (alert_engine_get_active_alerts true (pos 1024) s.engine) [
    | none ↦ error_response (codes "500") (codes "Failed to get alerts")
    | some list ↦ protocol_build_alerts_list (some list)
  ]

  -- the `switch`
  unfoldable pub dispatch :
      ℕ → Network → Client → CommandType → ParsedMessage → Server F → Handled F
  dispatch now net client ping msg s = answer s (codes "PONG" ++ crlf)
  dispatch now net client register_sensor msg s = handle_register_sensor now msg s
  dispatch now net client measurement msg s = handle_measurement now msg s
  dispatch now net client login msg s = handle_login net client msg s
  dispatch now net client operator_identify msg s = handle_operator_identify client s
  dispatch now net client get_sensors msg s = answer s (sensors_response s)
  dispatch now net client get_alerts msg s = answer s (alerts_response s)
  dispatch now net client get_status msg s = answer s status_response
  dispatch now net client unknown msg s = answer s not_found

  -- One message of `bytes_received` bytes, up to the call that sends the response.
  unfoldable pub handle_message : ℕ → Network → Client → Bytes → ℤ → Server F → Handled F
  handle_message now net client buffer bytes_received s =
      elim (protocol_parse buffer bytes_received) [
        | none ↦ answer s not_found
        | some msg ↦ dispatch now net client msg.type msg s
      ]
