-- ===== src/Tests/Tables.antt =====
-- Tests of the sensor table, the alert engine and the start of the program.
use iot_monitoring_system.Base.{
  ℕ, ◌+◌, ◌<◌, ◌≡◌, refl, ◌++◌, [], map, some, Bytes, codes, true, false, false, arith, pos, length,
  take, keep_last, NoNul, replicate,
}
use iot_monitoring_system.SensorManager.{
  Table, sensor_manager_init, sensor_manager_register, sensor_manager_add_measurement,
  sensor_manager_is_sensor_registered, sensor_manager_get_sensor_type, find_sensor, success,
  failure, write_sensor,
}
use iot_monitoring_system.SensorManager.Invariant as TableLaws
use iot_monitoring_system.SensorManager.Registry.{view, add, measure, find, Entry}
use iot_monitoring_system.SensorManager.Refinement.{
  succeeds, register_refines, add_measurement_refines,
}
use iot_monitoring_system.SensorManager.Ids.{registered_found, long_id_lost}
use iot_monitoring_system.AlertEngine.{
  Engine, warning, critical, max_alerts, cleared, alert_engine_register_threshold,
}
use iot_monitoring_system.AlertEngine.Check.{alert_engine_check_measurement}
use iot_monitoring_system.AlertEngine.Report.{alert_engine_resolve_alert}
use iot_monitoring_system.AlertEngine.Invariant as EngineLaws
use iot_monitoring_system.AlertEngine.Recent.{alerts, crossed, raised, check_measurement_history}
use iot_monitoring_system.AlertEngine.Resolve.{mark, pending, resolve_alert_history}
use iot_monitoring_system.Main.{startup_engine, above}
use iot_monitoring_system.Main.Startup.{Raises, startup_levels}
use iot_monitoring_system.Tests.{whole_numbers}

abbrev pub t1 : Bytes
t1 = codes "T1"

abbrev pub temperature : Bytes
temperature = codes "temperature"

abbrev pub celsius : Bytes
celsius = codes "C"

abbrev pub long_id : Bytes
long_id = replicate 32 b'x'

t1-NoNul : NoNul t1
t1-NoNul = ground arith

temperature-NoNul : NoNul temperature
temperature-NoNul = ground arith

celsius-NoNul : NoNul celsius
celsius-NoNul = ground arith

abbrev pub empty_table : Table ℕ
empty_table = sensor_manager_init.1

empty_table-IsValid : TableLaws.IsValid empty_table
empty_table-IsValid = TableLaws.init-IsValid ℕ

-- one sensor, T1
abbrev pub one_sensor : Table ℕ
one_sensor = (sensor_manager_register 7 (some temperature) (some t1) empty_table).1

pub one_sensor-IsValid : TableLaws.IsValid one_sensor
one_sensor-IsValid = TableLaws.register-IsValid 7 (some temperature) (some t1) empty_table-IsValid

abbrev pub t1_entry : Entry ℕ
t1_entry = record { id = t1; type = temperature; value = 0; unit = []; time = 7; active = true }

pub one_sensor_known : find t1 (view one_sensor) ≡ some t1_entry
unfolding sensor_manager_init sensor_manager_register find_sensor write_sensor
one_sensor_known = refl

register_refines_example :
    (
      succeeds (sensor_manager_register 8 (some temperature) (some long_id) one_sensor).0,
      view (sensor_manager_register 8 (some temperature) (some long_id) one_sensor).1,
    )
    ≡ add 8 temperature long_id (view one_sensor)
register_refines_example =
    register_refines 8 temperature long_id temperature-NoNul (ground arith) one_sensor-IsValid

add_measurement_refines_example :
    (
      succeeds (sensor_manager_add_measurement 9 (some t1) 42 (some celsius) one_sensor).0,
      view (sensor_manager_add_measurement 9 (some t1) 42 (some celsius) one_sensor).1,
    )
    ≡ measure 9 t1 42 celsius (view one_sensor)
add_measurement_refines_example =
    add_measurement_refines 9 t1 42 celsius celsius-NoNul one_sensor-IsValid

registration_succeeds :
    (sensor_manager_register 7 (some temperature) (some t1) empty_table).0 ≡ success
unfolding sensor_manager_init sensor_manager_register find_sensor
registration_succeeds = refl

registered_found_example :
    (sensor_manager_is_sensor_registered (some t1) one_sensor ≡ true)
    × ((kept : Bytes) × (sensor_manager_get_sensor_type (some t1) one_sensor ≡ some kept))
    × ((sensor_manager_add_measurement 9 (some t1) 42 (some celsius) one_sensor).0 ≡ success)
registered_found_example =
    registered_found 7 9 temperature t1 celsius 42 empty_table-IsValid temperature-NoNul t1-NoNul
      (omega arith) registration_succeeds

empty_table_room : empty_table.sensor_count < 50
unfolding sensor_manager_init
empty_table_room = omega arith

abbrev after_long : Table ℕ
after_long = (sensor_manager_register 7 (some temperature) (some long_id) empty_table).1

long_id_lost_example :
    ((sensor_manager_register 7 (some temperature) (some long_id) empty_table).0 ≡ success)
    × (after_long.sensor_count ≡ empty_table.sensor_count + 1)
    × (sensor_manager_is_sensor_registered (some long_id) after_long ≡ false)
    × ((sensor_manager_add_measurement 9 (some long_id) 42 (some celsius) after_long).0 ≡ failure)
long_id_lost_example =
    long_id_lost 7 9 temperature long_id celsius 42 empty_table-IsValid (omega arith)
      empty_table_room

-- one threshold, temperature > 30
abbrev pub one_threshold : Engine ℕ
one_threshold =
    (alert_engine_register_threshold 7 (some temperature) 30 warning (codes ">") (codes "hot")
      (cleared {F = ℕ})).1

pub one_threshold-IsValid : EngineLaws.IsValid one_threshold
one_threshold-IsValid =
    EngineLaws.register_threshold-IsValid 7 (some temperature) 30 warning (codes ">") (codes "hot")
      (EngineLaws.cleared-IsValid ℕ)

abbrev pub hot : Engine ℕ
hot = (alert_engine_check_measurement 9 (some t1) (some temperature) 42 one_threshold).1

check_measurement_history_example :
    ((alert_engine_check_measurement 9 (some t1) (some temperature) 42 one_threshold).0
      ≡ pos (
          length
            (crossed temperature 42 (take one_threshold.threshold_count one_threshold.thresholds))))
    × (alerts hot.history
        ≡ keep_last max_alerts (
            alerts one_threshold.history
            ++ map (raised 9 t1 temperature 42) (
                crossed temperature 42
                  (take one_threshold.threshold_count one_threshold.thresholds))))
check_measurement_history_example =
    check_measurement_history 9 t1 temperature 42 t1-NoNul temperature-NoNul one_threshold-IsValid

abbrev resolved : Engine ℕ
resolved = (alert_engine_resolve_alert (some t1) hot).1

resolve_alert_history_example :
    (alerts resolved.history ≡ map (mark t1) (alerts hot.history))
    × ((alert_engine_resolve_alert (some t1) hot).0 ≡ pos (pending t1 (alerts hot.history)))
    × ((alert_engine_resolve_alert (some t1) resolved).0 ≡ pos 0)
resolve_alert_history_example = resolve_alert_history t1 hot

startup_levels_example :
    Raises {F = ℕ} 9 t1
      (codes "temperature")
      42
      (above {F = ℕ} 30 42 warning ++ above {F = ℕ} 50 42 critical)
      (startup_engine 7)
    × Raises {F = ℕ} 9 t1
        (codes "vibration")
        42
        (above {F = ℕ} 5 42 warning ++ above {F = ℕ} 10 42 critical)
        (startup_engine 7)
    × Raises {F = ℕ} 9 t1 (codes "energy") 42 (above {F = ℕ} 500 42 warning) (startup_engine 7)
startup_levels_example = startup_levels 7 9 t1 (omega arith) 42
