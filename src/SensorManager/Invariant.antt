-- ===== src/SensorManager/Invariant.antt =====
-- The representation invariant of the sensor table, and the functions of
-- server/src/sensor_manager.c that change it.
use iot_monitoring_system.Base.{
  ℕ, suc, ◌+◌, ◌≤◌, ◌≡◌, refl, [], ◌∷◌, Option, none, some, Bytes, set, length, All, All-modify,
  All-replicate, length-modify, IsTerminated, strncpy-IsTerminated, Doubles, arith, leb,
  Option-cases, inl, inr, length-replicate, modify, true, false, ◌∙◌, Bool-cases,
}
use iot_monitoring_system.SensorManager.{
  Sensor, Table, max_sensors, blank, sensor_manager_init, sensor_manager_register,
  sensor_manager_add_measurement, sensor_manager_cleanup, find_sensor, write_sensor,
  write_measurement,
}

module _ {F : Type 0} where
  -- Each `char` array of a slot ends in a NUL that no call overwrites.
  abbrev pub IsSensor : Sensor F → Type 0
  IsSensor s = IsTerminated 31 s.id × IsTerminated 15 s.type × IsTerminated 15 s.last_unit

  pub record IsValid (t : Table F) : Type 0 where
    pub whole : length t.sensors ≡ max_sensors
    pub within : t.sensor_count ≤ max_sensors
    pub slots : All IsSensor t.sensors

drop-set_zero : (a : Bytes) (n : ℕ) → IsTerminated (suc n) a → IsTerminated (suc n) (set a 0 0)
drop-set_zero [] n h = h
drop-set_zero (c ∷ cs) n h = h

pub blank-IsSensor : (F : Type 0) ⦃d : Doubles F⦄ → IsSensor (blank {F = F})
blank-IsSensor F = (refl, refl, refl)

-- The table that `sensor_manager_init` leaves is valid.
pub init-IsValid : (F : Type 0) ⦃d : Doubles F⦄ → IsValid (sensor_manager_init {F = F}).1
unfolding sensor_manager_init
init-IsValid F = record {
  whole = length-replicate max_sensors (blank {F = F});
  within = omega arith;
  slots = All-replicate IsSensor max_sensors (blank {F = F}) (blank-IsSensor F);
}

module _ {F : Type 0} ⦃d : Doubles F⦄ where
  pub write_sensor-IsSensor :
      (type id : Bytes) (now : ℕ) (s : Sensor F)
      → IsSensor s
      → IsSensor (write_sensor type id now s)
  unfolding write_sensor
  write_sensor-IsSensor type id now s h = (
    strncpy-IsTerminated s.id id 31 h.0,
    strncpy-IsTerminated s.type type 15 h.1,
    drop-set_zero s.last_unit 14 h.2,
  )

  pub write_measurement-IsSensor :
      (value : F) (unit : Bytes) (now : ℕ) (s : Sensor F)
      → IsSensor s
      → IsSensor (write_measurement value unit now s)
  unfolding write_measurement
  write_measurement-IsSensor value unit now s h =
      (h.0, h.1, strncpy-IsTerminated s.last_unit unit 15 h.2)

  modify-IsValid :
      {t : Table F} (i : ℕ) (f : Sensor F → Sensor F)
      → IsValid t
      → ((s : Sensor F) → IsSensor s → IsSensor (f s))
      → IsValid (record t { sensors = modify t.sensors i f })
  modify-IsValid {t} i f v k = record {
    whole = length-modify t.sensors i f ∙ v.whole;
    within = v.within;
    slots = All-modify IsSensor t.sensors i f v.slots k;
  }

  append-IsValid :
      {t : Table F} (f : Sensor F → Sensor F)
      → IsValid t
      → leb max_sensors t.sensor_count ≡ false
      → ((s : Sensor F) → IsSensor s → IsSensor (f s))
      → IsValid (record {
        sensors = modify t.sensors t.sensor_count f;
        sensor_count = t.sensor_count + 1;
      })
  append-IsValid {t} f v room k = record {
    whole = length-modify t.sensors t.sensor_count f ∙ v.whole;
    within = ground arith;
    slots = All-modify IsSensor t.sensors t.sensor_count f v.slots k;
  }

  register_new-IsValid :
      (now : ℕ) (type id : Bytes) {t : Table F}
      → IsValid t
      → find_sensor t.sensors t.sensor_count id ≡ none
      → IsValid (sensor_manager_register now (some type) (some id) t).1
  unfolding sensor_manager_register
  register_new-IsValid now type id {t} v e = elim (Bool-cases (leb max_sensors t.sensor_count)) [
    | inl full ↦ rw (e, full, sensor_manager_register) v
    | inr room ↦
        rw (e, room, sensor_manager_register)
          (append-IsValid (write_sensor type id now) v room (write_sensor-IsSensor type id now))
  ]

  -- Every call of `sensor_manager_register` keeps the table valid: the slot that it writes lies
  -- inside the array, and no `char` array of the table loses its last NUL.
  pub register-IsValid :
      (now : ℕ) (type id : Option Bytes) {t : Table F}
      → IsValid t
      → IsValid (sensor_manager_register now type id t).1
  unfolding sensor_manager_register
  register-IsValid now none id v = v
  register-IsValid now (some type) none v = v
  register-IsValid now (some type) (some id) {t} v =
      elim (Option-cases (find_sensor t.sensors t.sensor_count id)) [
        | inl e ↦ register_new-IsValid now type id v e
        | inr (i, e) ↦
            rw (e, sensor_manager_register)
              (modify-IsValid i (λ s. record s { is_active = true }) v (λ s h. h))
      ]

  -- So does every call of `sensor_manager_add_measurement`.
  pub add_measurement-IsValid :
      (now : ℕ) (id : Option Bytes) (value : F) (unit : Option Bytes) {t : Table F}
      → IsValid t
      → IsValid (sensor_manager_add_measurement now id value unit t).1
  unfolding sensor_manager_add_measurement
  add_measurement-IsValid now none value unit v = v
  add_measurement-IsValid now (some id) value none v = v
  add_measurement-IsValid now (some id) value (some unit) {t} v =
      elim (Option-cases (find_sensor t.sensors t.sensor_count id)) [
        | inl e ↦ rw (e, sensor_manager_add_measurement) v
        | inr (i, e) ↦
            rw (e, sensor_manager_add_measurement)
              (modify-IsValid i (write_measurement value unit now) v
                (write_measurement-IsSensor value unit now))
      ]

  pub cleanup-IsValid : {t : Table F} → IsValid t → IsValid (sensor_manager_cleanup t).0
  unfolding sensor_manager_cleanup
  cleanup-IsValid v = record { whole = v.whole; within = omega arith; slots = v.slots }
