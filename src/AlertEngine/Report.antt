-- ===== src/AlertEngine/Report.antt =====
-- `alert_engine_get_active_alerts` and `alert_engine_resolve_alert` of server/src/alert_engine.c.
use iot_monitoring_system.Base.{
  ℕ, zero, suc, ◌+◌, List, [], ◌∷◌, ◌++◌, Option, none, some, Bool, true, false, not, ◌&&◌, Bytes,
  codes, c_str, snprintf, str_eq, if◌then◌else◌, Doubles, LogCall, logger_info, ℤ, pos, negsuc,
  append_row, decimal,
}
use iot_monitoring_system.AlertEngine.{AlertLevel, warning, ActiveAlert, Engine}

abbrev pub level_str : AlertLevel → Bytes
level_str warning = codes "WARNING"
level_str _ = codes "CRITICAL"

module _ {F : Type 0} ⦃d : Doubles F⦄ where
  -- "%s,%s,%.2f,%s,%ld,%s;" into `temp[512]`
  unfoldable pub alert_row : ActiveAlert F → Bytes
  alert_row a = snprintf 512 (
      c_str a.sensor_id
      ++ (b','
          ∷ (c_str a.sensor_type
              ++ (b','
                  ∷ (d.format a.value
                      ++ (b','
                          ∷ (level_str a.level
                              ++ (b','
                                  ∷ (decimal a.timestamp
                                      ++ (b',' ∷ (c_str a.message ++ (b';' ∷ []))))))))))))

  -- `!is_resolved && sensor_id[0] != '\0'`
  abbrev pub is_listed : ActiveAlert F → Bool
  is_listed a = not a.is_resolved && not (str_eq (c_str a.sensor_id) [])

  unfoldable pub list_alerts : List (ActiveAlert F) → ℕ → ℕ → Bytes → Bytes
  list_alerts [] n buffer_size output = output
  list_alerts (a ∷ as') zero buffer_size output = output
  list_alerts (a ∷ as') (suc n) buffer_size output =
      list_alerts as' n buffer_size
        (if is_listed a then append_row buffer_size (alert_row a) output else output)

  -- `none` is the result -1. The first argument tells whether `output_buffer` is not NULL.
  unfoldable pub alert_engine_get_active_alerts : Bool → ℤ → Engine F → Option Bytes
  alert_engine_get_active_alerts false buffer_size e = none
  alert_engine_get_active_alerts true (negsuc n) e = none
  alert_engine_get_active_alerts true (pos zero) e = none
  alert_engine_get_active_alerts true (pos (suc n)) e =
      some (list_alerts e.history.active_alerts e.history.active_alert_count (suc n) [])

module _ {F : Type 0} where
  -- One round of the loop of `alert_engine_resolve_alert`.
  unfoldable pub resolve_one : Bytes → ActiveAlert F → ActiveAlert F × ℕ × List LogCall
  resolve_one sensor_id a =
      if str_eq (c_str a.sensor_id) sensor_id && not a.is_resolved
      then (
        record a { is_resolved = true },
        1,
        logger_info (snprintf 128 (codes "Alert resolved for sensor: " ++ sensor_id)) ∷ [],
      )
      else (a, 0, [])

  unfoldable pub resolve_alerts :
      Bytes → List (ActiveAlert F) → ℕ → List (ActiveAlert F) × ℕ × List LogCall
  resolve_alerts sensor_id [] n = ([], 0, [])
  resolve_alerts sensor_id (a ∷ as') zero = (a ∷ as', 0, [])
  resolve_alerts sensor_id (a ∷ as') (suc n) =
      let (a', k, log) = resolve_one sensor_id a in
      let (rest, ks, logs) = resolve_alerts sensor_id as' n in (a' ∷ rest, k + ks, log ++ logs)

  unfoldable pub alert_engine_resolve_alert : Option Bytes → Engine F → ℤ × Engine F × List LogCall
  alert_engine_resolve_alert none e = (negsuc 0, e, [])
  alert_engine_resolve_alert (some sensor_id) e =
      let (as', resolved_count, log) =
        resolve_alerts sensor_id e.history.active_alerts e.history.active_alert_count in
      (pos resolved_count, record e { history = record e.history { active_alerts = as' } }, log)
