-- ===== src/AlertEngine/Check.antt =====
-- `add_active_alert` and `alert_engine_check_measurement` of server/src/alert_engine.c.
use iot_monitoring_system.Base.{
  ℕ, zero, suc, ◌+◌, ◌-◌, List, [], ◌∷◌, ◌++◌, Option, none, some, Bool, false, ◌&&◌, Bytes, codes,
  c_str, strncpy, snprintf, strn_eq, set, modify, leb, if◌then◌else◌, Doubles, LogCall,
  logger_error, ℤ, pos, negsuc,
}
use iot_monitoring_system.AlertEngine.{
  max_alerts, AlertLevel, AlertThreshold, ActiveAlert, History, Engine, check_condition,
}

-- memmove(&a[0], &a[1], …) over all but one slot: every slot takes its neighbour's value, and the
-- last keeps its own.
unfoldable pub shift {ℓ} : {A : Type ℓ} → List A → List A
shift [] = []
shift (x ∷ []) = x ∷ []
shift (x ∷ y ∷ ys) = y ∷ shift (y ∷ ys)

module _ {F : Type 0} where
  -- When the array is full the oldest alert is dropped.
  unfoldable pub make_room : History F → History F
  unfolding shift
  make_room h =
      if leb max_alerts h.active_alert_count
      then record { active_alerts = shift h.active_alerts; active_alert_count = max_alerts - 1 }
      else h

  unfoldable pub write_alert :
      ℕ → Bytes → Bytes → F → AlertLevel → Bytes → ActiveAlert F → ActiveAlert F
  write_alert now sensor_id sensor_type value level message a = record {
    sensor_id = set (strncpy a.sensor_id sensor_id 31) 31 0;
    sensor_type = set (strncpy a.sensor_type sensor_type 15) 15 0;
    value = value;
    level = level;
    timestamp = now;
    message = set (strncpy a.message message 255) 255 0;
    is_resolved = false;
  }

  -- the new alert, in the slot behind the last
  unfoldable pub push_alert : (ActiveAlert F → ActiveAlert F) → History F → History F
  push_alert write h = record {
    active_alerts = modify h.active_alerts h.active_alert_count write;
    active_alert_count = h.active_alert_count + 1;
  }

module _ {F : Type 0} ⦃d : Doubles F⦄ where
  unfoldable pub add_active_alert :
      ℕ → Bytes → Bytes → F → AlertLevel → Bytes → History F → History F × LogCall
  add_active_alert now sensor_id sensor_type value level message h = (
    push_alert (write_alert now sensor_id sensor_type value level message) (make_room h),
    logger_error (
        snprintf 256 (
          codes "ALERT TRIGGERED: "
          ++ (sensor_id
              ++ (codes " - " ++ (message ++ (codes " (" ++ (d.format value ++ codes ")"))))))),
  )

  -- The two tests of the loop: an active threshold for the type, and its condition.
  unfoldable pub triggers : Bytes → F → AlertThreshold F → Bool
  unfolding check_condition
  triggers sensor_type value th =
      (th.is_active && strn_eq 15 (c_str th.sensor_type) sensor_type)
      && check_condition value th.threshold_value (c_str th.condition)

  -- "%s: %.2f %s %.2f" into `alert_msg[256]`
  unfoldable pub alert_message : Bytes → F → AlertThreshold F → Bytes
  alert_message sensor_type value th = snprintf 256 (
      sensor_type
      ++ (codes ": "
          ++ (d.format value
              ++ (b' ' ∷ (c_str th.condition ++ (b' ' ∷ d.format th.threshold_value))))))

  -- One round of the loop: the threshold and the history after it, what it adds to
  -- `alerts_triggered`, and what it logs.
  unfoldable pub check_threshold :
      ℕ
      → Bytes
      → Bytes
      → F
      → AlertThreshold F
      → History F
      → AlertThreshold F × History F × ℕ × List LogCall
  check_threshold now sensor_id sensor_type value th h =
      if triggers sensor_type value th
      then (let (h', log) =
            add_active_alert now sensor_id sensor_type value th.level
              (alert_message sensor_type value th) h in
          (record th { last_triggered = now }, h', 1, log ∷ []))
      else (th, h, 0, [])

  -- The loop over the first `n` thresholds.
  unfoldable pub check_thresholds :
      ℕ
      → Bytes
      → Bytes
      → F
      → List (AlertThreshold F)
      → ℕ
      → History F
      → List (AlertThreshold F) × History F × ℕ × List LogCall
  check_thresholds now sensor_id sensor_type value [] n h = ([], h, 0, [])
  check_thresholds now sensor_id sensor_type value (th ∷ ths) zero h = (th ∷ ths, h, 0, [])
  check_thresholds now sensor_id sensor_type value (th ∷ ths) (suc n) h =
      let (th', h', k, log) = check_threshold now sensor_id sensor_type value th h in
      let (ths', end, ks, logs) = check_thresholds now sensor_id sensor_type value ths n h' in
      (th' ∷ ths', end, k + ks, log ++ logs)

  unfoldable pub alert_engine_check_measurement :
      ℕ → Option Bytes → Option Bytes → F → Engine F → ℤ × Engine F × List LogCall
  alert_engine_check_measurement now none sensor_type value e = (negsuc 0, e, [])
  alert_engine_check_measurement now (some sensor_id) none value e = (negsuc 0, e, [])
  alert_engine_check_measurement now (some sensor_id) (some sensor_type) value e =
      let (ths, h, alerts_triggered, log) =
        check_thresholds now sensor_id sensor_type value e.thresholds e.threshold_count e.history in
      (pos alerts_triggered, record e { thresholds = ths; history = h }, log)
