-- ===== src/Base/Log.antt =====
-- The calls of logger.h, as values: an operation returns those that it makes, in order.
use Prim.Native.Nat.{ℕ}
use iot_monitoring_system.Base.CString.{Bytes}

pub data LogCall : Type 0 where
  -- logger_info(message), logger_error(message)
  logger_info logger_error : Bytes → LogCall
  -- logger_event(level, ip, port, message, response)
  logger_event : Bytes → Bytes → ℕ → Bytes → Bytes → LogCall
