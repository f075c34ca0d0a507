-- ===== src/Tests/Requests.antt =====
-- Tests of the protocol and of the server.
use iot_monitoring_system.Base.{
  if◌then◌else◌, leb, ℕ, ◌≤◌, ◌≡◌, ◌↔◌, ◌⊎◌, refl, ◌++◌, [], List, ◌∷◌, map, some, none, Bytes,
  codes, arith, pos, negsuc, ℤ, length, take, keep_last, replicate, to_lower,
}
use iot_monitoring_system.Protocol.Strtok.Words.{words, strings_at}
use iot_monitoring_system.Protocol.Parse.{
  ParsedMessage, measurement, command_type, command_name, protocol_parse,
}
use iot_monitoring_system.Protocol.Parse.Line.{line, command_type_iff}
use iot_monitoring_system.Protocol.Parse.Words.{type_of, args_of, protocol_parse-words}
use iot_monitoring_system.Protocol.Reply.{crlf, protocol_build_ok, protocol_build_sensors_list}
use iot_monitoring_system.Protocol.Reply.Framing.{NoLineFeed, sensors_list_framing}
use iot_monitoring_system.SensorManager.Registry.{view, update}
use iot_monitoring_system.AlertEngine.{max_alerts}
use iot_monitoring_system.AlertEngine.Recent.{alerts, raised}
use iot_monitoring_system.AuthClient.Outcome.{Promises, received, auth_client_verify_lem}
use iot_monitoring_system.AuthClient.{auth_client_verify, Network, connected, refused}
use iot_monitoring_system.Server.Operators.{
  Send, Operators, max_operators, no_operators, register_operator, remove_operator, broadcast_alert,
  broadcast_loop,
}
use iot_monitoring_system.Server.Operators.Delivery.{sends_to}
use iot_monitoring_system.Server.Operators.Sessions.{
  joins, leaves, run, no_operators-IsValid, one_login, full_table_stays_full,
}
use iot_monitoring_system.Server.Connection.{Incoming}
use iot_monitoring_system.Server.Operators.Relogin.{two_logins}
use iot_monitoring_system.Server.Connection.Order.{sent_by, whole, CutOff, receive_loop_order}
use iot_monitoring_system.Server.Sending.{
  complete, failed, send_complete_response, send_complete_response-Delivered,
}
use iot_monitoring_system.Server.Dispatch.{Server, Client, handle_measurement, alerta}
use iot_monitoring_system.Server.Dispatch.Invariant.{IsValid}
use iot_monitoring_system.Server.Dispatch.Measurement.{measured, hits, measurement_handled}
use iot_monitoring_system.Tests.Tables.{
  t1, t1_entry, one_sensor, one_sensor-IsValid, one_sensor_known, one_threshold,
  one_threshold-IsValid,
}
use iot_monitoring_system.Runs
use iot_monitoring_system.Runs.{Event, message, disconnects, started, run-IsValid}
use iot_monitoring_system.Tests.{whole_numbers}

abbrev pub buffer : Bytes
buffer = codes "MEASUREMENT T1 42  C\r\n"

protocol_parse-words_example :
    (msg : ParsedMessage) × (protocol_parse buffer (pos 22) ≡ some msg)
    × (msg.type ≡ type_of (words (line (take 22 buffer))))
    × (strings_at msg.raw_buffer msg.args ≡ args_of (words (line (take 22 buffer))))
protocol_parse-words_example = protocol_parse-words buffer 22 (omega arith) (omega arith)

command_type_iff_example :
    (command_type (codes "measurement") ≡ measurement)
    ↔ (map to_lower (codes "measurement") ≡ map to_lower (command_name measurement))
command_type_iff_example = command_type_iff (codes "measurement") measurement (λ e. cc)

abbrev list : Bytes
list = replicate 600 b'x'

list-NoLineFeed : NoLineFeed list
list-NoLineFeed = ground arith

sensors_list_framing_example :
    (length list ≤ 501)
      × (protocol_build_sensors_list (some list) ≡ codes "SENSORS " ++ (list ++ crlf))
    ⊎ (502 ≤ length list) × NoLineFeed (protocol_build_sensors_list (some list))
sensors_list_framing_example = sensors_list_framing list list-NoLineFeed

-- T1 is registered and one threshold is set; nobody has logged in.
abbrev pub server : Server ℕ
server = record { table = one_sensor; engine = one_threshold; operators = no_operators }

pub server-IsValid : IsValid server
server-IsValid = record {
  table = one_sensor-IsValid;
  engine = one_threshold-IsValid;
  operators = no_operators-IsValid;
}

-- MEASUREMENT T1 42 C
abbrev pub request : ParsedMessage
request = record {
  type = measurement;
  args = 12 ∷ 15 ∷ 18 ∷ [];
  raw_buffer =
      codes "MEASUREMENT" ++ (0 ∷ (t1 ++ (0 ∷ (codes "42" ++ (0 ∷ (codes "C" ++ 0 ∷ []))))));
}

measurement_handled_example :
    ((handle_measurement 9 request server).response
      ≡ protocol_build_ok (some (codes "MEASUREMENT_RECEIVED")))
    × (view (handle_measurement 9 request server).server.table
        ≡ update t1 (measured 9 request 42) (view server.table))
    × (alerts (handle_measurement 9 request server).server.engine.history
        ≡ keep_last max_alerts (
            alerts server.engine.history
            ++ map (raised 9 t1 t1_entry.type 42) (hits 9 request 42 t1_entry.type server)))
    × ((handle_measurement 9 request server).sends ≡ (
        if leb 1 (length (hits 9 request 42 t1_entry.type server))
        then broadcast_alert (alerta {F = ℕ} t1 t1_entry.type 42 (codes "C")) server.operators
        else []))
measurement_handled_example =
    measurement_handled 9 request server-IsValid (omega arith) one_sensor_known

abbrev pub network : Network
network = record {
  docker_host = refused;
  local_host = connected;
  answer = λ request. codes "ROLE:admin\n";
}

abbrev pub client : Client
client = record { client_fd = pos 8; ip = codes "10.0.0.7"; port = 5000; mutex = 3 }

abbrev alerta_text : Bytes
alerta_text = codes "ALERTA T1,temperature,42,C\r\n"

absent : sends_to (pos 8) (broadcast_alert alerta_text no_operators) ≡ 0
unfolding broadcast_alert broadcast_loop
absent = refl

one_login_example :
    (sends_to (pos 8) (broadcast_alert alerta_text (register_operator (pos 8) 3 no_operators).0)
      ≡ 1)
    × (sends_to (pos 8) (
          broadcast_alert alerta_text
            (remove_operator (pos 8) (register_operator (pos 8) 3 no_operators).0))
        ≡ 0)
one_login_example = one_login alerta_text 7 3 no_operators-IsValid absent (omega arith)

abbrev both : Operators
both = (register_operator (pos 8) 3 (register_operator (pos 8) 3 no_operators).0).0

abbrev own : Send
own = record { mutex = some 3; fd = pos 8; text = alerta_text }

two_logins_example :
    (broadcast_alert alerta_text both ≡ broadcast_alert alerta_text no_operators ++ own ∷ own ∷ [])
    × (broadcast_alert alerta_text (remove_operator (pos 8) both)
        ≡ broadcast_alert alerta_text no_operators ++ own ∷ [])
two_logins_example = two_logins alerta_text 7 3 no_operators-IsValid absent (omega arith)

-- A hundred operators, with the descriptor 9, that all have left.
abbrev full_operators : Operators
full_operators = record {
  slots = replicate max_operators (record { client = negsuc 0; write_mutex = none });
  operator_count = max_operators;
}

full-absent : sends_to (pos 8) (broadcast_alert alerta_text full_operators) ≡ 0
unfolding broadcast_alert broadcast_loop
full-absent = refl

full_table_stays_full_example :
    sends_to
      (pos 8)
      (broadcast_alert alerta_text (run full_operators (leaves (pos 9) ∷ joins (pos 8) 3 ∷ [])))
    ≡ 0
full_table_stays_full_example =
    full_table_stays_full alerta_text (pos 8) (leaves (pos 9) ∷ joins (pos 8) 3 ∷ []) full_operators
      (omega arith) full-absent

-- A `send` that takes three bytes at a time.
abbrev three : ℕ → Bytes → ℤ
three call rest = pos 3

send_complete_response-Delivered_example :
    (send_complete_response three (codes "PONG\r\n") ≡ complete (codes "PONG\r\n"))
    ⊎ ((sent : Bytes) × (c : ℕ) × (cs : Bytes) × (send_complete_response three (codes "PONG\r\n")
          ≡ failed sent)
        × (codes "PONG\r\n" ≡ sent ++ c ∷ cs))
send_complete_response-Delivered_example = send_complete_response-Delivered three (codes "PONG\r\n")

-- A client logs in, sends a measurement and leaves.
abbrev events : List Event
events =
    message 8 network client (codes "LOGIN admin admin123\r\n") (pos 22)
    ∷ message 9 network client buffer (pos 22)
    ∷ disconnects client
    ∷ []

run-IsValid_example : IsValid (Runs.run (started {F = ℕ} 7) events)
run-IsValid_example = run-IsValid 7 events

auth_client_verify_lem_example :
    Promises network
      (received network (codes "admin") (codes "admin123"))
      64
      (auth_client_verify network (codes "admin") (codes "admin123") 64)
auth_client_verify_lem_example =
    auth_client_verify_lem network (codes "admin") (codes "admin123") 64 (omega arith)

-- The measurement, received.
abbrev pub received_message : Incoming ℕ
received_message = record {
  now = 8;
  net = network;
  state = server;
  buffer = buffer;
  count = 21;
  send = three;
  stale = [];
}

abbrev pub incoming : List (Incoming ℕ)
incoming = received_message ∷ []

receive_loop_order_example :
    (sent_by client incoming ≡ whole client incoming)
    ⊎ CutOff client incoming (sent_by client incoming)
receive_loop_order_example = receive_loop_order client incoming
