-- ===== src/SensorManager/Ids.antt =====
-- Which ids a caller of sensor_manager.c finds again after a registration.
use mathlib.Core.Bool.{false≢true}
use iot_monitoring_system.Base.{
  ℕ, zero, suc, ◌+◌, ◌≤◌, ◌<◌, ◌≡◌, refl, sym, ap, ◌∙◌, List, [], ◌∷◌, ◌++◌, none, some, Bytes,
  true, false, c_str, length, str_eq, leb, Doubles, NoNul, All, arith, Option-cases, Bool-cases,
  inl, inr, length-c_str-le, str_eq_iff, take-eq_of_le,
}
use iot_monitoring_system.SensorManager.{
  Sensor, Table, max_sensors, failure, success, sensor_manager_register,
  sensor_manager_add_measurement, find_sensor, sensor_manager_is_sensor_registered,
  sensor_manager_get_sensor_type,
}
use iot_monitoring_system.SensorManager.Invariant.{IsSensor, IsValid, register-IsValid}
use iot_monitoring_system.SensorManager.Registry.{
  Entry, view, find, update, new_entry, add, add-known, add-full, add-room,
}
use iot_monitoring_system.SensorManager.Refinement.{
  succeeds, register_refines, find-none, find-some,
}

long-ne : (a id : Bytes) → length a ≤ 31 → 32 ≤ length id → str_eq a id ≡ false
long-ne a id ha hi = elim (Bool-cases (str_eq a id)) [
  | inl e ↦ absurd (omega (arith, ap length ((str_eq_iff a id).0 e)))
  | inr e ↦ e
]

module _ {F : Type 0} where
  find_sensor-long :
      (ss : List (Sensor F)) (n : ℕ) (id : Bytes)
      → All IsSensor ss
      → 32 ≤ length id
      → find_sensor ss n id ≡ none
  unfolding find_sensor
  find_sensor-long [] n id h l = refl
  find_sensor-long (s ∷ ss) zero id h l = refl
  find_sensor-long (s ∷ ss) (suc n) id h l = ground (
    arith,
    long-ne (c_str s.id) id (length-c_str-le 31 s.id h.0.0) l,
    find_sensor-long ss n id h.1 l,
  )

  find-long :
      (t : Table F) (id : Bytes)
      → IsValid t
      → 32 ≤ length id
      → find_sensor t.sensors t.sensor_count id ≡ none
  find-long t id v l = find_sensor-long t.sensors t.sensor_count id v.slots l

  pub find-update_self :
      (id : Bytes) (f : Entry F → Entry F) (es : List (Entry F)) {e : Entry F}
      → ((e : Entry F) → (f e).id ≡ e.id)
      → find id es ≡ some e
      → find id (update id f es) ≡ some (f e)
  find-update_self id f [] k h = cc
  find-update_self id f (x ∷ es) {e} k h = ground (arith, k x, find-update_self id f es {e = e} k)

  find-append :
      (id : Bytes) (es : List (Entry F)) (e : Entry F)
      → find id es ≡ none
      → e.id ≡ id
      → find id (es ++ e ∷ []) ≡ some e
  find-append id [] e h k = ground (arith, str_eq_iff e.id id)
  find-append id (x ∷ es) e h k = ground (arith, find-append id es e)

module _ {F : Type 0} ⦃d : Doubles F⦄ where
  long_id_unknown :
      (later : ℕ) (id unit : Bytes) (value : F) (t : Table F)
      → IsValid t
      → 32 ≤ length id
      → (sensor_manager_is_sensor_registered (some id) t ≡ false)
        × ((sensor_manager_add_measurement later (some id) value (some unit) t).0 ≡ failure)
  unfolding sensor_manager_is_sensor_registered sensor_manager_add_measurement
  long_id_unknown later id unit value t v l =
      let e = find-long t id v l in
      (rw (e, sensor_manager_is_sensor_registered), rw (e, sensor_manager_add_measurement))

  register-room :
      (now : ℕ) (type id : Bytes) (t : Table F)
      → find_sensor t.sensors t.sensor_count id ≡ none
      → t.sensor_count < max_sensors
      → let (r, t', log) = sensor_manager_register now (some type) (some id) t in
        (r ≡ success) × (t'.sensor_count ≡ t.sensor_count + 1)
  unfolding sensor_manager_register
  register-room now type id t e room = ground arith

  -- In a valid table with a slot free, a sensor whose id has more than 31 bytes takes a slot at its
  -- registration, is told that it is registered, and is not found afterwards: its measurements are
  -- refused.
  pub long_id_lost :
      (now later : ℕ) (type id unit : Bytes) (value : F) {t : Table F}
      → IsValid t
      → 32 ≤ length id
      → t.sensor_count < max_sensors
      → let (r, t', log) = sensor_manager_register now (some type) (some id) t in
        (r ≡ success)
        × (t'.sensor_count ≡ t.sensor_count + 1)
        × (sensor_manager_is_sensor_registered (some id) t' ≡ false)
        × ((sensor_manager_add_measurement later (some id) value (some unit) t').0 ≡ failure)
  long_id_lost now later type id unit value {t} v l room =
      let (ok, grown) = register-room now type id t (find-long t id v l) room in
      let (unknown, refused) =
        long_id_unknown later id unit value _ (register-IsValid now (some type) (some id) v) l in
      (ok, grown, unknown, refused)

  find-add :
      (now : ℕ) (type id : Bytes) (es : List (Entry F))
      → length id ≤ 31
      → (add now type id es).0 ≡ true
      → (e : Entry F) × (find id (add now type id es).1 ≡ some e)
  find-add now type id es fits ok = elim (Option-cases (find id es)) [
    | inl e ↦ elim (Bool-cases (leb max_sensors (length es))) [
      | inl full ↦ absurd (false≢true (sym (ap (λ p. p.0) (add-full now type id es e full)) ∙ ok))
      | inr room ↦ (
        new_entry now type id,
        ap (λ p. find id p.1) (add-room now type id es e room)
            ∙ find-append id es (new_entry now type id) e (take-eq_of_le 31 id fits),
      )
    ]
    | inr (x, e) ↦ (
      record x { active = true },
      ap (λ p. find id p.1) (add-known now type id es e)
          ∙ find-update_self id (λ e. record e { active = true }) es (λ e. refl) e,
    )
  ]

  pub found-known :
      (later : ℕ) (id unit : Bytes) (value : F) (t : Table F) {e : Entry F}
      → find id (view t) ≡ some e
      → (sensor_manager_is_sensor_registered (some id) t ≡ true)
        × (sensor_manager_get_sensor_type (some id) t ≡ some e.type)
        × ((sensor_manager_add_measurement later (some id) value (some unit) t).0 ≡ success)
  unfolding sensor_manager_is_sensor_registered sensor_manager_get_sensor_type
      sensor_manager_add_measurement
  found-known later id unit value t h =
      elim (Option-cases (find_sensor t.sensors t.sensor_count id)) [
        | inl none_found ↦ cc (h, find-none t id none_found)
        | inr (i, at) ↦ (ground arith, ground (arith, find-some t id i at, h), ground arith)
      ]

  -- In a valid table, a sensor whose id is a string of at most 31 bytes, and whose type is a
  -- string, is found after a registration that succeeds: it is registered, it has a type, and its
  -- next measurement is accepted.
  pub registered_found :
      (now later : ℕ) (type id unit : Bytes) (value : F) {t : Table F}
      → IsValid t
      → NoNul type
      → NoNul id
      → length id ≤ 31
      → (sensor_manager_register now (some type) (some id) t).0 ≡ success
      → let (r, t', log) = sensor_manager_register now (some type) (some id) t in
        (sensor_manager_is_sensor_registered (some id) t' ≡ true)
        × ((kept : Bytes) × (sensor_manager_get_sensor_type (some id) t' ≡ some kept))
        × ((sensor_manager_add_measurement later (some id) value (some unit) t').0 ≡ success)
  registered_found now later type id unit value {t} v ht hi fits ok =
      let refined = register_refines now type id ht hi v in
      let accepted = sym (ap (λ p. p.0) refined) ∙ ap succeeds ok in
      let (e, at) = find-add now type id (view t) fits accepted in
      let (registered, typed, measured) =
        found-known later id unit value _ (ap (λ p. find id p.1) refined ∙ at) in
      (registered, (e.type, typed), measured)
