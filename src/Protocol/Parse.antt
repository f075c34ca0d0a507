-- ===== src/Protocol/Parse.antt =====
-- `protocol_parse` of server/src/protocol.c with the types of server/include/protocol.h.
pub mod Line
pub mod Words
use iot_monitoring_system.Base.{
  ℕ, ◌||◌, List, [], ◌∷◌, ◌++◌, Option, none, some, Bytes, codes, ℤ, pos, negsuc, take, drop, c_str,
  length, strcase_eq, get_or, ◌==◌, leb, if◌then◌else◌,
}
use iot_monitoring_system.Protocol.Strtok.{Cursor, memory, strtok, collect}

abbrev pub max_buffer_size : ℕ
max_buffer_size = 1024

abbrev pub max_args : ℕ
max_args = 8

pub data CommandType : Type 0 where
  unknown register_sensor measurement login get_sensors : CommandType
  get_status get_alerts ping operator_identify : CommandType

-- The pointers of `args` are offsets in `raw_buffer`. Of the array, the bytes that the call writes
-- are modelled: the message and the NUL behind it.
pub record ParsedMessage : Type 0 where
  pub type : CommandType
  pub args : List ℕ
  pub raw_buffer : Bytes

abbrev pub argc : ParsedMessage → ℕ
argc msg = length msg.args

-- The string that `msg->args[i]` points to; the callers test `argc` first.
abbrev pub arg : ParsedMessage → ℕ → Bytes
arg msg i = c_str (drop (get_or msg.args i 0) msg.raw_buffer)

-- The name of a command in the chain of `strcasecmp` tests.
abbrev pub command_name : CommandType → Bytes
command_name unknown = []
command_name register_sensor = codes "REGISTER_SENSOR"
command_name measurement = codes "MEASUREMENT"
command_name login = codes "LOGIN"
command_name get_sensors = codes "GET_SENSORS"
command_name get_status = codes "GET_STATUS"
command_name get_alerts = codes "GET_ALERTS"
command_name ping = codes "PING"
command_name operator_identify = codes "OPERATOR_IDENTIFY"

unfoldable pub command_type : Bytes → CommandType
command_type token =
    if strcase_eq token (codes "REGISTER_SENSOR")
    then register_sensor
    else if strcase_eq token (codes "MEASUREMENT")
    then measurement
    else if strcase_eq token (codes "LOGIN")
    then login
    else if strcase_eq token (codes "GET_SENSORS")
    then get_sensors
    else if strcase_eq token (codes "GET_STATUS")
    then get_status
    else if strcase_eq token (codes "GET_ALERTS")
    then get_alerts
    else if strcase_eq token (codes "PING")
    then ping
    else if strcase_eq token (codes "OPERATOR_IDENTIFY")
    then operator_identify
    else unknown

-- `while (*p) { if (*p == '\r' || *p == '\n') { *p = '\0'; break; } p++; }`
unfoldable pub cut_line : Bytes → Bytes
cut_line [] = []
cut_line (c ∷ cs) =
    if c == 0 then c ∷ cs else if c == b'\r' || c == b'\n' then 0 ∷ cs else c ∷ cut_line cs

abbrev pub first_cursor : Bytes → Cursor
first_cursor buffer = record { before = []; after = buffer }

unfoldable pub parse_buffer : Bytes → ParsedMessage
parse_buffer buffer = elim (strtok (first_cursor buffer)) [
  | none ↦ record { type = unknown; args = []; raw_buffer = buffer }
  | some (o, cur) ↦
      let (os, end) = collect max_args cur in
      record {
        type = command_type (c_str (drop o (memory cur)));
        args = os;
        raw_buffer = memory end;
      }
]

-- `none` is the result -1, which leaves `*msg` as it was.
unfoldable pub protocol_parse : Bytes → ℤ → Option ParsedMessage
protocol_parse buffer (negsuc n) = none
protocol_parse buffer (pos bytes_received) =
    if leb bytes_received 0 || leb max_buffer_size bytes_received
    then none
    else some (parse_buffer (cut_line (take bytes_received buffer ++ 0 ∷ [])))
