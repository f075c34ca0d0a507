-- ===== src/SensorManager/Refinement.antt =====
-- The table of server/src/sensor_manager.c against the registry of its entries.
use mathlib.Core.Option
use iot_monitoring_system.Base.{
  ℕ, zero, suc, ◌≡◌, refl, sym, ap, ◌∙◌, subst, List, [], ◌∷◌, map, Option, none, some, Bytes, Bool,
  true, false, c_str, take, length, str_eq, leb, if◌then◌else◌, Doubles, NoNul, All, modify, arith,
  c_str-strncpy, length-take, length-map, get_elem?, set, map-take-modify_end, Option-cases,
  Bool-cases, inl, inr, ℤ, pos, negsuc,
}
use iot_monitoring_system.SensorManager.{
  Sensor, Table, max_sensors, sensor_manager_register, sensor_manager_add_measurement, find_sensor,
  write_sensor, write_measurement, sensor_manager_is_sensor_registered,
  sensor_manager_get_sensor_type,
}
use iot_monitoring_system.SensorManager.Invariant.{IsSensor, IsValid}
use iot_monitoring_system.SensorManager.Registry.{
  Entry, entry, view, find, update, new_entry, add, measure, add-known, add-full, add-room,
  measure-known, measure-unknown,
}

c_str-set_zero : (a : Bytes) → c_str (set a 0 0) ≡ []
c_str-set_zero [] = refl
c_str-set_zero (c ∷ cs) = refl

module _ {F : Type 0} where
  -- What the search of the array says of the search of the entries.
  abbrev Agrees : List (Sensor F) → ℕ → Bytes → Option ℕ → Type 0
  Agrees ss n id none = find id (map entry (take n ss)) ≡ none
  Agrees ss n id (some i) =
      (s : Sensor F) × (get_elem? ss i ≡ some s)
      × (find id (map entry (take n ss)) ≡ some (entry s))

  Agrees-cons :
      (s : Sensor F) (ss : List (Sensor F)) (n : ℕ) (id : Bytes) (b : Bool) (r : Option ℕ)
      → str_eq (c_str s.id) id ≡ b
      → Agrees ss n id r
      → Agrees
          (s ∷ ss)
          (suc n)
          id
          (if b then some 0 else elim r [ none ↦ none | some i ↦ some (suc i) ])
  Agrees-cons s ss n id true r e a = (s, refl, rw e)
  Agrees-cons s ss n id false none e a = rw e a
  Agrees-cons s ss n id false (some i) e a = (a.0, a.1, rw e a.2)

  find_sensor-Agrees :
      (ss : List (Sensor F)) (n : ℕ) (id : Bytes) → Agrees ss n id (find_sensor ss n id)
  unfolding find_sensor
  find_sensor-Agrees [] zero id = refl
  find_sensor-Agrees [] (suc n) id = refl
  find_sensor-Agrees (s ∷ ss) zero id = refl
  find_sensor-Agrees (s ∷ ss) (suc n) id =
      Agrees-cons s ss n id (str_eq (c_str s.id) id) (find_sensor ss n id) refl
        (find_sensor-Agrees ss n id)

  -- Updating the slot that the search found is updating the entry of the id.
  view-modify :
      (f : Sensor F → Sensor F) (g : Entry F → Entry F) (ss : List (Sensor F)) (n : ℕ) (id : Bytes)
      (i : ℕ)
      → ((s : Sensor F) → IsSensor s → entry (f s) ≡ g (entry s))
      → All IsSensor ss
      → find_sensor ss n id ≡ some i
      → map entry (take n (modify ss i f)) ≡ update id g (map entry (take n ss))
  unfolding find_sensor
  view-modify f g [] n id i k h e = cc
  view-modify f g (s ∷ ss) zero id i k h e = cc
  view-modify f g (s ∷ ss) (suc n) id zero k h e = ground (arith, k s h.0)
  view-modify f g (s ∷ ss) (suc n) id (suc i) k h e =
      ground (arith, view-modify f g ss n id i k h.1)

  pub length-view : {t : Table F} → IsValid t → length (view t) ≡ t.sensor_count
  length-view {t} v = omega (
    arith,
    length-map entry (take t.sensor_count t.sensors),
    length-take t.sensor_count t.sensors,
    v.whole,
    v.within,
  )

-- The result of a function that returns 0 or -1, as a Boolean.
abbrev pub succeeds : ℤ → Bool
succeeds (pos n) = true
succeeds (negsuc n) = false

module _ {F : Type 0} ⦃d : Doubles F⦄ where
  entry-write_sensor :
      (type id : Bytes) (now : ℕ)
      → NoNul type
      → NoNul id
      → (s : Sensor F) → IsSensor s
      → entry (write_sensor type id now s) ≡ new_entry now type id
  unfolding write_sensor
  entry-write_sensor type id now ht hi s h = ground (
    arith,
    c_str-strncpy s.id id 31 hi h.0,
    c_str-strncpy s.type type 15 ht h.1,
    c_str-set_zero s.last_unit,
  )

  entry-write_measurement :
      (value : F) (unit : Bytes) (now : ℕ)
      → NoNul unit
      → (s : Sensor F) → IsSensor s
      → entry (write_measurement value unit now s)
        ≡ record (entry s) { value = value; unit = take 15 unit; time = now; active = true }
  unfolding write_measurement
  entry-write_measurement value unit now hu s h =
      ground (arith, c_str-strncpy s.last_unit unit 15 hu h.2)

  pub find-none :
      (t : Table F) (id : Bytes)
      → find_sensor t.sensors t.sensor_count id ≡ none
      → find id (view t) ≡ none
  find-none t id e = subst (Agrees t.sensors t.sensor_count id) e (find_sensor-Agrees _ _ id)

  pub find-some :
      (t : Table F) (id : Bytes) (i : ℕ)
      → find_sensor t.sensors t.sensor_count id ≡ some i
      → (s : Sensor F) × (get_elem? t.sensors i ≡ some s) × (find id (view t) ≡ some (entry s))
  find-some t id i e = subst (Agrees t.sensors t.sensor_count id) e (find_sensor-Agrees _ _ id)

  register_new_refines :
      (now : ℕ) (type id : Bytes) {t : Table F}
      → NoNul type
      → NoNul id
      → IsValid t
      → find_sensor t.sensors t.sensor_count id ≡ none
      → let (r, t', log) = sensor_manager_register now (some type) (some id) t in
        (succeeds r, view t') ≡ add now type id (view t)
  unfolding sensor_manager_register
  register_new_refines now type id {t} ht hi v e =
      let count = sym (ap (leb max_sensors) (length-view v)) in
      elim (Bool-cases (leb max_sensors t.sensor_count)) [
        | inl full ↦
            rw (e, full, sensor_manager_register)
              (sym (add-full now type id (view t) (find-none t id e) (sym count ∙ full)))
        | inr room ↦
            rw (e, room, sensor_manager_register)
              (ap (λ es. (true, es))
                  (map-take-modify_end IsSensor entry (write_sensor type id now)
                    (new_entry now type id) t.sensors t.sensor_count v.slots
                    (entry-write_sensor type id now ht hi) (ground arith))
                ∙ sym (add-room now type id (view t) (find-none t id e) (sym count ∙ room)))
      ]

  -- On a valid table, for a type and an id that are strings, `sensor_manager_register` succeeds
  -- exactly when `add` does, and leaves the entries that `add` leaves: a known id is marked active,
  -- and a new one is appended while fewer than 50 are there.
  pub register_refines :
      (now : ℕ) (type id : Bytes) {t : Table F}
      → NoNul type
      → NoNul id
      → IsValid t
      → let (r, t', log) = sensor_manager_register now (some type) (some id) t in
        (succeeds r, view t') ≡ add now type id (view t)
  unfolding sensor_manager_register
  register_refines now type id {t} ht hi v =
      elim (Option-cases (find_sensor t.sensors t.sensor_count id)) [
        | inl e ↦ register_new_refines now type id ht hi v e
        | inr (i, e) ↦
            rw (e, sensor_manager_register)
              (ap (λ es. (true, es))
                  (view-modify (λ s. record s { is_active = true })
                    (λ e. record e { active = true }) t.sensors t.sensor_count id i (λ s _. refl)
                    v.slots e)
                ∙ sym (add-known now type id (view t) (find-some t id i e).2))
      ]

  -- On a valid table, for a unit that is a string, `sensor_manager_add_measurement` succeeds
  -- exactly when `measure` does, and leaves the entries that `measure` leaves: the entry of the id
  -- takes the value, the unit up to 15 bytes and the time, and an unknown id is refused.
  pub add_measurement_refines :
      (now : ℕ) (id : Bytes) (value : F) (unit : Bytes) {t : Table F}
      → NoNul unit
      → IsValid t
      → let (r, t', log) = sensor_manager_add_measurement now (some id) value (some unit) t in
        (succeeds r, view t') ≡ measure now id value unit (view t)
  unfolding sensor_manager_add_measurement
  add_measurement_refines now id value unit {t} hu v =
      elim (Option-cases (find_sensor t.sensors t.sensor_count id)) [
        | inl e ↦
            rw (e, sensor_manager_add_measurement)
              (sym (measure-unknown now id value unit (view t) (find-none t id e)))
        | inr (i, e) ↦
            rw (e, sensor_manager_add_measurement)
              (ap (λ es. (true, es))
                  (view-modify (write_measurement value unit now)
                    (λ e. record e {
                      value = value;
                      unit = take 15 unit;
                      time = now;
                      active = true;
                    })
                    t.sensors t.sensor_count id i (entry-write_measurement value unit now hu)
                    v.slots e)
                ∙ sym (measure-known now id value unit (view t) (find-some t id i e).2))
      ]

  -- On any table, an id is registered exactly when the first entry with it exists, and its type is
  -- that entry's type.
  pub queries_refine :
      (id : Bytes) (t : Table F)
      → (sensor_manager_is_sensor_registered (some id) t
          ≡ elim (find id (view t)) [ none ↦ false | some e ↦ true ])
        × (sensor_manager_get_sensor_type (some id) t ≡ Option.map (λ e. e.type) (find id (view t)))
  unfolding sensor_manager_is_sensor_registered sensor_manager_get_sensor_type
  queries_refine id t = elim (Option-cases (find_sensor t.sensors t.sensor_count id)) [
    | inl e ↦ ground (arith, find-none t id e)
    | inr (i, e) ↦ ground (arith, find-some t id i e)
  ]
