-- ===== src/Server/Calls/Stable.antt =====
-- The type of a registered sensor in the table of server/src/sensor_manager.c, under the calls of all
-- threads. `sensor_manager_get_sensor_type` returns a pointer into the table, which
-- `handle_client` reads after the mutex is free again.
use mathlib.Core.Option
use iot_monitoring_system.Base.{
  ℕ, ◌≡◌, refl, sym, ap, ◌∙◌, List, [], ◌∷◌, ◌++◌, some, Bytes, true, leb, length, Doubles, arith,
  Option-cases, Bool-cases, inl, inr, Option, take,
}
use iot_monitoring_system.SensorManager.{max_sensors, sensor_manager_get_sensor_type}
use iot_monitoring_system.SensorManager.Registry.{
  Entry, view, find, update, new_entry, add, measure, add-known, add-full, add-room, measure-known,
  measure-unknown,
}
use iot_monitoring_system.SensorManager.Refinement.{
  register_refines, add_measurement_refines, queries_refine,
}
use iot_monitoring_system.Server.Dispatch.{Server}
use iot_monitoring_system.Server.Dispatch.Invariant.{IsValid}
use iot_monitoring_system.Server.Calls.{
  Call, registers, stores, checks, logs_in, leaves, Calls, here, next, Calls-IsValid,
}

module _ {F : Type 0} where
  -- The type of the first entry with an id.
  abbrev type_in : Bytes → List (Entry F) → Option Bytes
  type_in id es = Option.map (λ (e : Entry F). e.type) (find id es)

  type_in-update :
      (id id' : Bytes) (f : Entry F → Entry F) (es : List (Entry F))
      → ((e : Entry F) → ((f e).id ≡ e.id) × ((f e).type ≡ e.type))
      → type_in id (update id' f es) ≡ type_in id es
  type_in-update id id' f [] k = refl
  type_in-update id id' f (e ∷ es) k = ground (arith, k e, type_in-update id id' f es k)

  type_in-append :
      (id : Bytes) (es : List (Entry F)) (x : Entry F) {type : Bytes}
      → type_in id es ≡ some type
      → type_in id (es ++ x ∷ []) ≡ some type
  type_in-append id [] x h = cc
  type_in-append id (e ∷ es) x {type} h = ground (arith, type_in-append id es x {type = type})

  -- The table has the type for the id.
  abbrev Keeps : Bytes → Bytes → Server F → Type 0
  Keeps id type s = type_in id (view s.table) ≡ some type

module _ {F : Type 0} ⦃d : Doubles F⦄ (id : Bytes) {type : Bytes} where
  type_in-add :
      (now : ℕ) (new_type new_id : Bytes) (es : List (Entry F))
      → type_in id es ≡ some type
      → type_in id (add now new_type new_id es).1 ≡ some type
  type_in-add now new_type new_id es h = elim (Option-cases (find new_id es)) [
    | inl e ↦ elim (Bool-cases (leb max_sensors (length es))) [
      | inl full ↦ rw (add-full now new_type new_id es e full) h
      | inr room ↦
          rw (add-room now new_type new_id es e room)
            (type_in-append id es (new_entry now new_type new_id) h)
    ]
    | inr (x, e) ↦
        rw (add-known now new_type new_id es e)
          (type_in-update id new_id (λ e. record e { active = true }) es (λ e. (refl, refl)) ∙ h)
  ]

  type_in-measure :
      (now : ℕ) (other : Bytes) (value : F) (unit : Bytes) (es : List (Entry F))
      → type_in id es ≡ some type
      → type_in id (measure now other value unit es).1 ≡ some type
  type_in-measure now other value unit es h = elim (Option-cases (find other es)) [
    | inl e ↦ rw (measure-unknown now other value unit es e) h
    | inr (x, e) ↦ rw (measure-known now other value unit es e) (
        type_in-update id other
          (λ e. record e { value = value; unit = take 15 unit; time = now; active = true }) es
          (λ e. (refl, refl))
        ∙ h)
  ]

  Call-Keeps : {s t : Server F} → Call s t → IsValid s → Keeps id type s → Keeps id type t
  Call-Keeps {s} (registers now new_type new_id ht hi) v h =
      ap (λ p. type_in id p.1) (register_refines now new_type new_id ht hi v.table)
      ∙ type_in-add now new_type new_id (view s.table) h
  Call-Keeps {s} (stores now other value unit hu) v h =
      ap (λ p. type_in id p.1) (add_measurement_refines now other value unit hu v.table)
      ∙ type_in-measure now other value unit (view s.table) h
  Call-Keeps (checks now other new_type value) v h = h
  Call-Keeps (logs_in fd mutex) v h = h
  Call-Keeps (leaves fd) v h = h

  Calls-Keeps : {s t : Server F} → IsValid s → Calls s t → Keeps id type s → Keeps id type t
  Calls-Keeps v here h = h
  Calls-Keeps v (next cs c) h = Call-Keeps c (Calls-IsValid v cs) (Calls-Keeps v cs h)

  -- In a valid state, the type that `sensor_manager_get_sensor_type` returns for a sensor stays the
  -- type of that sensor, whatever calls the threads make afterwards, in any order.
  pub sensor_type_stable :
      {s t : Server F}
      → IsValid s
      → Calls s t
      → sensor_manager_get_sensor_type (some id) s.table ≡ some type
      → sensor_manager_get_sensor_type (some id) t.table ≡ some type
  sensor_type_stable {s} {t} v cs h =
      (queries_refine id t.table).1 ∙ Calls-Keeps v cs (sym (queries_refine id s.table).1 ∙ h)
