-- ===== src/SensorManager/Listing.antt =====
-- The text that `sensor_manager_get_active_sensors` leaves in the caller's buffer.
use iot_monitoring_system.Base.{
  ℕ, zero, suc, ◌≤◌, ◌<◌, ◌≡◌, refl, sym, ap, ◌∙◌, List, [], ◌∷◌, some, Bytes, true, length,
  if◌then◌else◌, Doubles, arith, pos, negsuc, ℤ, fill, fill-guard, fill-nil, fill-fits, fill-whole,
  concat, take,
}
use iot_monitoring_system.SensorManager.{
  Sensor, Table, sensor_row, list_sensors, sensor_manager_get_active_sensors,
}

module _ {F : Type 0} ⦃d : Doubles F⦄ where
  -- The rows of the active sensors.
  abbrev pub active_rows : List (Sensor F) → List Bytes
  active_rows [] = []
  active_rows (s ∷ ss) = if s.is_active then sensor_row s ∷ active_rows ss else active_rows ss

  list_sensors-fill :
      (ss : List (Sensor F)) (n size : ℕ) (output : Bytes)
      → list_sensors ss n size output ≡ fill size (active_rows (take n ss)) output
  unfolding list_sensors
  list_sensors-fill [] zero size output = sym (fill-nil size output)
  list_sensors-fill [] (suc n) size output = sym (fill-nil size output)
  list_sensors-fill (s ∷ ss) zero size output = sym (fill-nil size output)
  list_sensors-fill (s ∷ ss) (suc n) size output =
      list_sensors-fill ss n size _
      ∙ fill-guard s.is_active size (sensor_row s) (active_rows (take n ss)) output

  -- Where the rows of all active sensors fit the buffer together, with a NUL behind them, they stand
  -- there whole, in the order of registration.
  pub active_sensors_whole :
      (t : Table F) (n : ℕ)
      → length (concat (active_rows (take t.sensor_count t.sensors))) ≤ n
      → sensor_manager_get_active_sensors true (pos (suc n)) t
        ≡ some (concat (active_rows (take t.sensor_count t.sensors)))
  unfolding sensor_manager_get_active_sensors
  active_sensors_whole t n h = ap some (
      list_sensors-fill t.sensors t.sensor_count (suc n) []
      ∙ fill-whole (suc n) (active_rows (take t.sensor_count t.sensors)) [] (omega arith))

  -- Whatever the table holds, a result 0 leaves a text that fits the buffer together with its NUL,
  -- and is given only for a positive size.
  pub active_sensors_fit :
      (t : Table F) (size : ℤ) {output : Bytes}
      → sensor_manager_get_active_sensors true size t ≡ some output
      → (n : ℕ) × (size ≡ pos n) × (length output < n)
  unfolding sensor_manager_get_active_sensors
  active_sensors_fit t (pos zero) e = cc
  active_sensors_fit t (pos (suc n)) e = (
    suc n,
    refl,
    ground (
      arith,
      list_sensors-fill t.sensors t.sensor_count (suc n) [],
      fill-fits (suc n) (active_rows (take t.sensor_count t.sensors)) [] (omega arith),
    ),
  )
  active_sensors_fit t (negsuc n) e = cc
