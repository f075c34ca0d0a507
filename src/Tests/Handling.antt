-- ===== src/Tests/Handling.antt =====
-- Tests of whole requests and of the calls of the threads.
use iot_monitoring_system.Base.{
  ℕ, ◌≡◌, refl, ◌++◌, [], ◌∷◌, some, none, Bytes, codes, arith, pos, length, take, NoNul,
}
use iot_monitoring_system.Protocol.Strtok.Words.{strings_at}
use iot_monitoring_system.Protocol.Parse.{ParsedMessage, command_type, protocol_parse, max_args}
use iot_monitoring_system.Protocol.Request.{IsWord, request, protocol_parse-request}
use iot_monitoring_system.SensorManager.{
  sensor_manager_init, sensor_manager_register, sensor_manager_add_measurement, find_sensor,
  sensor_manager_get_sensor_type, write_sensor,
}
use iot_monitoring_system.SensorManager.Registry.{view}
use iot_monitoring_system.SensorManager.Distinct.{IsDistinct, sensors-IsDistinct}
use iot_monitoring_system.Server.Dispatch.{Client, Server, handle_message, handle_login}
use iot_monitoring_system.Server.Dispatch.Invariant.{IsValid}
use iot_monitoring_system.Server.Dispatch.Requests.{registration, Registers, register_request}
use iot_monitoring_system.Server.Dispatch.Login.{is_reached, is_granted, LogsIn, login_handled}
use iot_monitoring_system.Server.Calls.{Calls, stores, Calls-IsValid}
use iot_monitoring_system.Server.Dispatch.Effect.{state, state_after, handle_message_refines}
use iot_monitoring_system.Server.Calls.Stable.{sensor_type_stable}
use iot_monitoring_system.Base.{if◌then◌else◌, leb}
use iot_monitoring_system.Protocol.Strtok.{strtok, collect}
use iot_monitoring_system.Protocol.Parse.{cut_line, parse_buffer}
use iot_monitoring_system.Server.Operators.{broadcast_alert, broadcast_loop}
use iot_monitoring_system.Server.Operators.Delivery.{sends_to}
use iot_monitoring_system.Server.Dispatch.{handle_measurement, alerta}
use iot_monitoring_system.Server.Dispatch.Measurement.{hits}
use iot_monitoring_system.Server.Dispatch.Delivery.{with_operator, alert_reaches_operator}
use iot_monitoring_system.Server.Connection.{Incoming, raw_message}
use iot_monitoring_system.Server.Connection.Logged.{raw_message-request}
use iot_monitoring_system.Server.Connection.Order.{response_to}
use iot_monitoring_system.Server.Sharing.{
  Threads, waiting, Reach, pointer_of, resp_buf, built, shared_buffer_race,
}
use iot_monitoring_system.Tests.Tables.{one_sensor_known}
use iot_monitoring_system.Tests.{whole_numbers}
use iot_monitoring_system.Tests.Tables.{t1, temperature, celsius, one_sensor, one_sensor-IsValid}
use iot_monitoring_system.Tests.Requests as Requests

abbrev t2 : Bytes
t2 = codes "T2"

IsWord-t2 : IsWord t2
IsWord-t2 = ((λ e. cc), omega arith)

IsWord-temperature : IsWord temperature
IsWord-temperature = ((λ e. cc), omega arith)

IsWord-ping : IsWord (codes "PING")
IsWord-ping = ((λ e. cc), omega arith)

protocol_parse-request_example :
    (msg : ParsedMessage) × (protocol_parse
        (request (codes "PING") (t2 ∷ []) ++ 7 ∷ [])
        (pos (length (request (codes "PING") (t2 ∷ []))))
      ≡ some msg)
    × (msg.type ≡ command_type (codes "PING"))
    × (strings_at msg.raw_buffer msg.args ≡ take max_args (t2 ∷ []))
protocol_parse-request_example =
    protocol_parse-request (codes "PING") (t2 ∷ []) (7 ∷ []) IsWord-ping (IsWord-t2, tt)
      (omega arith)

register_request_example : Registers 9 temperature t2 Requests.server (
    handle_message 9 Requests.network Requests.client
      (registration t2 temperature ++ [])
      (pos (length (registration t2 temperature)))
      Requests.server)
register_request_example =
    register_request 9 Requests.network Requests.client t2 temperature [] Requests.server-IsValid
      IsWord-t2 IsWord-temperature (omega arith)

-- LOGIN admin admin123
abbrev login_message : ParsedMessage
login_message = record {
  type = ParsedMessage.type Requests.request;
  args = 6 ∷ 12 ∷ [];
  raw_buffer = codes "LOGIN" ++ (0 ∷ (codes "admin" ++ (0 ∷ (codes "admin123" ++ 0 ∷ []))));
}

login_handled_example :
    LogsIn Requests.network Requests.client login_message Requests.server
      (is_reached Requests.network Requests.client login_message Requests.server)
      (is_granted Requests.network Requests.client login_message Requests.server)
      (handle_login Requests.network Requests.client login_message Requests.server)
login_handled_example =
    login_handled Requests.network Requests.client login_message Requests.server (omega arith)

celsius-NoNul : NoNul celsius
celsius-NoNul = ground arith

-- A measurement and a login.
abbrev measured : Server ℕ
measured = record Requests.server {
  table = (sensor_manager_add_measurement 9 (some t1) 42 (some celsius) one_sensor).1;
}

two_calls : Calls Requests.server measured
two_calls = Calls.next Calls.here (stores 9 t1 42 celsius celsius-NoNul)

Calls-IsValid_example : IsValid measured
Calls-IsValid_example = Calls-IsValid Requests.server-IsValid two_calls

handle_message_refines_example :
    state
      (handle_message 9 Requests.network Requests.client Requests.buffer
        (pos 22)
        Requests.server).server
    ≡ elim (protocol_parse Requests.buffer (pos 22)) [
      | none ↦ state Requests.server
      | some msg ↦ state_after 9 Requests.network Requests.client msg Requests.server msg.type
    ]
handle_message_refines_example =
    handle_message_refines 9 Requests.network Requests.client Requests.buffer (pos 22)
      Requests.server-IsValid

t1_type : sensor_manager_get_sensor_type (some t1) one_sensor ≡ some temperature
unfolding sensor_manager_init sensor_manager_register find_sensor write_sensor
    sensor_manager_get_sensor_type
t1_type = refl

sensor_type_stable_example :
    sensor_manager_get_sensor_type (some t1) measured.table ≡ some temperature
sensor_type_stable_example = sensor_type_stable t1 Requests.server-IsValid two_calls t1_type

one_sensor-IsDistinct : IsDistinct (view one_sensor)
unfolding sensor_manager_init sensor_manager_register find_sensor write_sensor
one_sensor-IsDistinct = (refl, tt)

sensors-IsDistinct_example :
    IsDistinct (view (sensor_manager_register 9 (some temperature) (some t2) one_sensor).1)
    × IsDistinct (view (sensor_manager_add_measurement 9 (some t2) 42 (some celsius) one_sensor).1)
sensors-IsDistinct_example =
    sensors-IsDistinct 9 temperature t2 celsius 42 one_sensor-IsValid one_sensor-IsDistinct
      (ground arith) (ground arith) celsius-NoNul (omega arith)

alerta-absent :
    sends_to
      (pos 8)
      (broadcast_alert (alerta {F = ℕ} t1 temperature 42 celsius) Requests.server.operators)
    ≡ 0
unfolding broadcast_alert broadcast_loop
alerta-absent = refl

alert_reaches_operator_example :
    sends_to
      (pos 8)
      (handle_measurement 9 Requests.request (with_operator 7 3 Requests.server)).sends
    ≡ (if leb 1 (length (hits 9 Requests.request 42 temperature Requests.server)) then 1 else 0)
alert_reaches_operator_example =
    alert_reaches_operator 9 7 3 Requests.request Requests.server-IsValid (omega arith)
      (omega arith) alerta-absent one_sensor_known

raw_message-request_example :
    raw_message
      (request (codes "PING") (t2 ∷ []) ++ [])
      (pos (length (request (codes "PING") (t2 ∷ []))))
      []
    ≡ codes "PING"
raw_message-request_example =
    raw_message-request (codes "PING") t2 [] [] [] IsWord-ping (IsWord-t2, tt) (omega arith)

abbrev idle_threads : Threads
idle_threads = record { buffer = []; pc = λ i. waiting; answers = [] }

measurement-resp_buf : pointer_of Requests.received_message ≡ resp_buf
unfolding protocol_parse parse_buffer strtok collect cut_line command_type
measurement-resp_buf = refl

-- GET_STATUS of another client
abbrev status_message : Incoming ℕ
status_message = record Requests.received_message { buffer = codes "GET_STATUS\r\n"; count = 11 }

abbrev other_client : Client
other_client = record { client_fd = pos 9; ip = codes "10.0.0.8"; port = 5001; mutex = 4 }

shared_buffer_race_example :
    (t : Threads) × Reach ℕ idle_threads t
    × (t.answers
        ≡ record {
          thread = 0;
          own = response_to Requests.client Requests.received_message;
          sent = built other_client status_message;
        }
          ∷ [])
shared_buffer_race_example =
    shared_buffer_race 0 1 Requests.client other_client Requests.received_message status_message
      (omega arith) refl refl measurement-resp_buf
