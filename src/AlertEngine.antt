-- ===== src/AlertEngine.antt =====
-- server/src/alert_engine.c and server/include/alert_engine.h: the thresholds, and the history of
-- alerts that their crossings add to.
-- As in sensor_manager.c each function runs under its mutex and is one step here. `time(NULL)` is
-- an argument: the calls of `time` within one function are taken to return the same second.
pub mod Check
pub mod Report
pub mod Invariant
pub mod Recent
pub mod Resolve
pub mod Listing
use iot_monitoring_system.Base.{
  ℕ, ◌+◌, List, [], ◌∷◌, ◌++◌, Option, none, some, Bool, true, false, Bytes, codes, strncpy,
  snprintf, str_eq, replicate, set, modify, length, leb, if◌then◌else◌, Doubles, LogCall,
  logger_info, logger_error, ℤ, pos, negsuc,
}

abbrev pub max_alerts : ℕ
max_alerts = 100

-- AlertLevel; `zeroed` is what `memset` leaves in a slot, and no call passes it.
pub data AlertLevel : Type 0 where
  zeroed warning critical : AlertLevel

-- AlertThreshold_t; the `char` fields are arrays of 32, 16, 8 and 256 bytes.
pub record AlertThreshold (F : Type 0) : Type 0 where
  pub sensor_id : Bytes
  pub sensor_type : Bytes
  pub threshold_value : F
  pub level : AlertLevel
  pub condition : Bytes
  pub is_active : Bool
  pub created_at : ℕ
  pub last_triggered : ℕ
  pub message : Bytes

-- ActiveAlert_t; the `char` fields are arrays of 32, 16 and 256 bytes.
pub record ActiveAlert (F : Type 0) : Type 0 where
  pub sensor_id : Bytes
  pub sensor_type : Bytes
  pub value : F
  pub level : AlertLevel
  pub timestamp : ℕ
  pub message : Bytes
  pub is_resolved : Bool

-- `active_alerts` and `active_alert_count`
pub record History (F : Type 0) : Type 0 where
  pub active_alerts : List (ActiveAlert F)
  pub active_alert_count : ℕ

-- the four statics of alert_engine.c
pub record Engine (F : Type 0) : Type 0 where
  pub thresholds : List (AlertThreshold F)
  pub threshold_count : ℕ
  pub history : History F

module _ {F : Type 0} ⦃d : Doubles F⦄ where
  -- one slot of memset(thresholds, 0, sizeof(thresholds))
  abbrev pub blank_threshold : AlertThreshold F
  blank_threshold = record {
    sensor_id = replicate 32 0;
    sensor_type = replicate 16 0;
    threshold_value = d.literal 0;
    level = zeroed;
    condition = replicate 8 0;
    is_active = false;
    created_at = 0;
    last_triggered = 0;
    message = replicate 256 0;
  }

  -- one slot of memset(active_alerts, 0, sizeof(active_alerts))
  abbrev pub blank_alert : ActiveAlert F
  blank_alert = record {
    sensor_id = replicate 32 0;
    sensor_type = replicate 16 0;
    value = d.literal 0;
    level = zeroed;
    timestamp = 0;
    message = replicate 256 0;
    is_resolved = false;
  }

  abbrev pub cleared : Engine F
  cleared = record {
    thresholds = replicate max_alerts blank_threshold;
    threshold_count = 0;
    history = record { active_alerts = replicate max_alerts blank_alert; active_alert_count = 0 };
  }

  unfoldable pub alert_engine_init : ℤ × Engine F × List LogCall
  alert_engine_init = (pos 0, cleared, logger_info (codes "Alert engine initialized") ∷ [])

  unfoldable pub alert_engine_cleanup : Engine F × List LogCall
  alert_engine_cleanup = (cleared, logger_info (codes "Alert engine cleaned up") ∷ [])

  -- the fields that a registration writes in the slot behind the last
  unfoldable pub write_threshold :
      ℕ → Bytes → F → AlertLevel → Bytes → Bytes → AlertThreshold F → AlertThreshold F
  write_threshold now sensor_type threshold level condition message th = record th {
    sensor_type = strncpy (set th.sensor_type 15 0) sensor_type 15;
    message = strncpy th.message message 255;
    threshold_value = threshold;
    level = level;
    condition = strncpy th.condition condition 7;
    is_active = true;
    created_at = now;
    last_triggered = 0;
  }

  -- The early returns are in the order of the source.
  unfoldable pub alert_engine_register_threshold :
      ℕ → Option Bytes → F → AlertLevel → Bytes → Bytes → Engine F → ℤ × Engine F × List LogCall
  alert_engine_register_threshold now sensor_type threshold level condition message e =
      if leb max_alerts e.threshold_count
      then (negsuc 0, e, logger_error (codes "Maximum number of alert thresholds reached") ∷ [])
      else elim sensor_type [
        | none ↦
            (negsuc 0, e, logger_error (codes "Invalid sensor_type in register_threshold") ∷ [])
        | some type ↦
            if leb (length type) 0
            then (
              negsuc 0,
              e,
              logger_error (codes "Invalid sensor_type in register_threshold") ∷ [],
            )
            else (
              pos 0,
              record e {
                thresholds =
                    modify e.thresholds e.threshold_count
                      (write_threshold now type threshold level condition message);
                threshold_count = e.threshold_count + 1;
              },
              logger_info (
                    snprintf 128 (
                      codes "Alert threshold registered for "
                      ++ (type ++ (codes ": " ++ (condition ++ (b' ' ∷ d.format threshold))))))
                  ∷ [],
            )
      ]

  unfoldable pub check_condition : F → F → Bytes → Bool
  check_condition value threshold condition =
      if str_eq condition (codes ">")
      then d.gt value threshold
      else if str_eq condition (codes "<")
      then d.lt value threshold
      else if str_eq condition (codes ">=")
      then d.ge value threshold
      else if str_eq condition (codes "<=")
      then d.le value threshold
      else false
