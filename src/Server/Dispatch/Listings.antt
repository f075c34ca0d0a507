-- ===== src/Server/Dispatch/Listings.antt =====
-- GET_SENSORS and GET_ALERTS (`handle_client` of server/src/server.c): the lists of sensor_manager.c
-- and alert_engine.c in the responses of protocol.c.
use iot_monitoring_system.Base.{Bytes, concat, take, Doubles}
use iot_monitoring_system.SensorManager.Listing.{active_rows}
use iot_monitoring_system.AlertEngine.Listing.{alert_rows}
use iot_monitoring_system.Server.Dispatch.{Server}

module _ {F : Type 0} ⦃d : Doubles F⦄ (s : Server F) where
  -- What there is to list.
  abbrev pub sensor_text : Bytes
  sensor_text = concat (active_rows (take s.table.sensor_count s.table.sensors))

  abbrev pub alert_text : Bytes
  alert_text = concat (alert_rows s.engine)
