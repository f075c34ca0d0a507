-- ===== src/SensorManager.antt =====
-- server/src/sensor_manager.c and server/include/sensor_manager.h: the table of sensors.
-- Every function runs under `sensor_mutex` from its first access of the table to its last, so each
-- is one step on the table; the interleavings of callers are sequences of these steps.
-- A function returns the new table and the calls of the logger beside its result; the value of
-- `time(NULL)` is an argument. A `const char *` that may be NULL is an `Option`.
pub mod Invariant
pub mod Registry
pub mod Refinement
pub mod Ids
pub mod Distinct
pub mod Listing
use iot_monitoring_system.Base.{
  ℕ, zero, suc, ◌+◌, List, [], ◌∷◌, ◌++◌, Option, none, some, Bool, true, false, Bytes, codes,
  c_str, strncpy, snprintf, str_eq, replicate, set, get_elem?, modify, append_row, leb,
  if◌then◌else◌, Doubles, LogCall, logger_info, logger_error, logger_event, ℤ, pos, negsuc,
}

abbrev pub max_sensors : ℕ
max_sensors = 50

-- Sensor_t; the `char` fields are arrays of 32, 16 and 16 bytes.
pub record Sensor (F : Type 0) : Type 0 where
  pub id : Bytes
  pub type : Bytes
  pub last_value : F
  pub last_unit : Bytes
  pub last_timestamp : ℕ
  pub is_active : Bool

-- `sensors` and `sensor_count`
pub record Table (F : Type 0) : Type 0 where
  pub sensors : List (Sensor F)
  pub sensor_count : ℕ

abbrev pub failure : ℤ
failure = negsuc 0

abbrev pub success : ℤ
success = pos 0

-- What a function returns: its result, the table, and what it logs.
abbrev pub Outcome : Type 0 → Type 0
Outcome F = ℤ × Table F × List LogCall

module _ {F : Type 0} ⦃d : Doubles F⦄ where
  -- memset(sensors, 0, sizeof(sensors)) for one slot
  abbrev pub blank : Sensor F
  blank = record {
    id = replicate 32 0;
    type = replicate 16 0;
    last_value = d.literal 0;
    last_unit = replicate 16 0;
    last_timestamp = 0;
    is_active = false;
  }

  unfoldable pub sensor_manager_init : Outcome F
  sensor_manager_init = (
    success,
    record { sensors = replicate max_sensors blank; sensor_count = 0 },
    logger_info (codes "Sensor manager initialized") ∷ [],
  )

-- `for (i = 0; i < sensor_count; i++) if (strcmp(sensors[i].id, sensor_id) == 0)`: the first hit
unfoldable pub find_sensor : {F : Type 0} → List (Sensor F) → ℕ → Bytes → Option ℕ
find_sensor [] n sensor_id = none
find_sensor (s ∷ ss) zero sensor_id = none
find_sensor (s ∷ ss) (suc n) sensor_id =
    if str_eq (c_str s.id) sensor_id
    then some 0
    else elim (find_sensor ss n sensor_id) [ none ↦ none | some i ↦ some (suc i) ]

module _ {F : Type 0} ⦃d : Doubles F⦄ where
  -- the fields that a registration writes in the slot behind the last
  unfoldable pub write_sensor : Bytes → Bytes → ℕ → Sensor F → Sensor F
  write_sensor sensor_type sensor_id now s = record s {
    id = strncpy s.id sensor_id 31;
    type = strncpy s.type sensor_type 15;
    last_value = d.literal 0;
    last_unit = set s.last_unit 0 0;
    last_timestamp = now;
    is_active = true;
  }

  unfoldable pub sensor_manager_register : ℕ → Option Bytes → Option Bytes → Table F → Outcome F
  sensor_manager_register now none sensor_id t = (failure, t, [])
  sensor_manager_register now (some sensor_type) none t = (failure, t, [])
  sensor_manager_register now (some sensor_type) (some sensor_id) t =
      elim (find_sensor t.sensors t.sensor_count sensor_id) [
        | some i ↦ (
          success,
          record t { sensors = modify t.sensors i (λ s. record s { is_active = true }) },
          logger_event (codes "INFO") (codes "0.0.0.0") 0 (codes "Sensor already registered")
                sensor_id
              ∷ [],
        )
        | none ↦
            if leb max_sensors t.sensor_count
            then (failure, t, logger_error (codes "Maximum number of sensors reached") ∷ [])
            else (
              success,
              record {
                sensors = modify t.sensors t.sensor_count (write_sensor sensor_type sensor_id now);
                sensor_count = t.sensor_count + 1;
              },
              logger_info (
                    snprintf 128 (
                      codes "Sensor registered: "
                      ++ (sensor_id ++ (codes " (" ++ (sensor_type ++ codes ")")))))
                  ∷ [],
            )
      ]

  unfoldable pub write_measurement : F → Bytes → ℕ → Sensor F → Sensor F
  write_measurement value unit now s = record s {
    last_value = value;
    last_unit = strncpy s.last_unit unit 15;
    last_timestamp = now;
    is_active = true;
  }

  unfoldable pub sensor_manager_add_measurement :
      ℕ → Option Bytes → F → Option Bytes → Table F → Outcome F
  sensor_manager_add_measurement now none value unit t = (failure, t, [])
  sensor_manager_add_measurement now (some sensor_id) value none t = (failure, t, [])
  sensor_manager_add_measurement now (some sensor_id) value (some unit) t =
      elim (find_sensor t.sensors t.sensor_count sensor_id) [
        | some i ↦ (
          success,
          record t { sensors = modify t.sensors i (write_measurement value unit now) },
          logger_info (
                snprintf 128 (
                  codes "Measurement from "
                  ++ (sensor_id ++ (codes ": " ++ (d.format value ++ (b' ' ∷ unit))))))
              ∷ [],
        )
        | none ↦
            (failure, t, logger_error (codes "Measurement received from unregistered sensor") ∷ [])
      ]

  -- "%s,%s,%.2f,%s;" into `temp[128]`
  unfoldable pub sensor_row : Sensor F → Bytes
  sensor_row s = snprintf 128 (
      c_str s.id
      ++ (b','
          ∷ (c_str s.type
              ++ (b',' ∷ (d.format s.last_value ++ (b',' ∷ (c_str s.last_unit ++ (b';' ∷ []))))))))

  -- The loop over the first `n` slots, on the string that `output_buffer` holds.
  unfoldable pub list_sensors : List (Sensor F) → ℕ → ℕ → Bytes → Bytes
  list_sensors [] n buffer_size output = output
  list_sensors (s ∷ ss) zero buffer_size output = output
  list_sensors (s ∷ ss) (suc n) buffer_size output =
      list_sensors ss n buffer_size
        (if s.is_active then append_row buffer_size (sensor_row s) output else output)

  -- `none` is the result -1. The first argument tells whether `output_buffer` is not NULL.
  unfoldable pub sensor_manager_get_active_sensors : Bool → ℤ → Table F → Option Bytes
  sensor_manager_get_active_sensors false buffer_size t = none
  sensor_manager_get_active_sensors true (negsuc n) t = none
  sensor_manager_get_active_sensors true (pos zero) t = none
  sensor_manager_get_active_sensors true (pos (suc n)) t =
      some (list_sensors t.sensors t.sensor_count (suc n) [])

module _ {F : Type 0} where
  unfoldable pub sensor_manager_is_sensor_registered : Option Bytes → Table F → Bool
  sensor_manager_is_sensor_registered none t = false
  sensor_manager_is_sensor_registered (some sensor_id) t =
      elim (find_sensor t.sensors t.sensor_count sensor_id) [ none ↦ false | some i ↦ true ]

  -- The pointer into the table is returned; the model returns the string behind it.
  unfoldable pub sensor_manager_get_sensor_type : Option Bytes → Table F → Option Bytes
  sensor_manager_get_sensor_type none t = none
  sensor_manager_get_sensor_type (some sensor_id) t =
      elim (find_sensor t.sensors t.sensor_count sensor_id) [
        | none ↦ none
        | some i ↦ elim (get_elem? t.sensors i) [ none ↦ none | some s ↦ some (c_str s.type) ]
      ]

  unfoldable pub sensor_manager_cleanup : Table F → Table F × List LogCall
  sensor_manager_cleanup t =
      (record t { sensor_count = 0 }, logger_info (codes "Sensor manager cleaned up") ∷ [])
