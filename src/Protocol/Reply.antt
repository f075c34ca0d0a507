-- ===== src/Protocol/Reply.antt =====
-- The builders of server/src/protocol.c. Each formats into the static `resp_buf` of 512 bytes and
-- returns it; the model returns the string that it then holds. A `const char *` that may be NULL is
-- an `Option`.
pub mod Framing
use iot_monitoring_system.Base.{
  ℕ, Bool, ◌||◌, false, [], ◌∷◌, ◌++◌, Option, none, some, Bytes, codes, snprintf, strn_eq,
}

abbrev pub resp_size : ℕ
resp_size = 512

abbrev pub crlf : Bytes
crlf = b'\r' ∷ b'\n' ∷ []

-- `p ? p : other`
abbrev pub or_else : Option Bytes → Bytes → Bytes
or_else none other = other
or_else (some p) other = p

unfoldable pub protocol_build_ok : Option Bytes → Bytes
protocol_build_ok details = snprintf resp_size (codes "OK " ++ (or_else details [] ++ crlf))

unfoldable pub protocol_build_error : Option Bytes → Option Bytes → Bytes
protocol_build_error error_code desc =
    snprintf resp_size
      (codes "ERROR " ++ (or_else error_code (codes "500") ++ (b' ' ∷ (or_else desc [] ++ crlf))))

unfoldable pub protocol_build_alert : Bytes → Bytes → Bytes
protocol_build_alert sensor_id message =
    snprintf resp_size (codes "ALERT " ++ (sensor_id ++ (b' ' ∷ (message ++ crlf))))

unfoldable pub protocol_build_sensors_list : Option Bytes → Bytes
protocol_build_sensors_list list_data =
    snprintf resp_size (codes "SENSORS " ++ (or_else list_data [] ++ crlf))

unfoldable pub protocol_build_alerts_list : Option Bytes → Bytes
protocol_build_alerts_list alerts_data =
    snprintf resp_size (codes "ALERTS " ++ (or_else alerts_data [] ++ crlf))

unfoldable pub protocol_build_status : Option Bytes → Bytes
protocol_build_status status_text =
    snprintf resp_size (codes "STATUS " ++ (or_else status_text (codes "OK") ++ crlf))

unfoldable pub protocol_is_http : Option Bytes → Bool
protocol_is_http none = false
protocol_is_http (some buffer) = strn_eq 4 buffer (codes "GET ") || strn_eq 5 buffer (codes "POST ")
