-- ===== src/Server/Connection/Logged.antt =====
-- What `handle_client` (server/src/server.c) logs of a message.
use iot_monitoring_system.Base.{◌<◌, ◌≡◌, List, ◌∷◌, ◌++◌, Bytes, pos, All, length}
use iot_monitoring_system.Protocol.Parse.{max_buffer_size}
use iot_monitoring_system.Protocol.Request.{IsWord, request}
use iot_monitoring_system.Protocol.Request.Raw.{raw_buffer-request}
use iot_monitoring_system.Server.Connection.{raw_message}

-- The message that is logged for a request of two words or more is its first word only, whatever
-- stands in the buffer behind the request.
pub raw_message-request :
    (w v : Bytes) (ws : List Bytes) (behind stale : Bytes)
    → IsWord w
    → All IsWord (v ∷ ws)
    → length (request w (v ∷ ws)) < max_buffer_size
    → raw_message (request w (v ∷ ws) ++ behind) (pos (length (request w (v ∷ ws)))) stale ≡ w
unfolding raw_message
raw_message-request w v ws behind stale h hs fits =
    let (msg, parsed, raw) = raw_buffer-request w v ws behind h hs fits in
    rw (parsed, raw_message) raw
