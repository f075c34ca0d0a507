-- ===== src/SensorManager/Distinct.antt =====
-- Whether the ids in the table of server/src/sensor_manager.c are distinct.
use iot_monitoring_system.Base.{
  ℕ, ◌≤◌, ◌≡◌, refl, sym, ap, ◌∙◌, subst, List, [], ◌∷◌, ◌++◌, some, none, Bytes, true, false,
  str_eq, leb, length, Doubles, NoNul, arith, Option-cases, Bool-cases, inl, inr, take, str_eq_iff,
  take-eq_of_le,
}
use iot_monitoring_system.SensorManager.{
  Table, max_sensors, sensor_manager_register, sensor_manager_add_measurement,
}
use iot_monitoring_system.SensorManager.Invariant.{IsValid}
use iot_monitoring_system.SensorManager.Registry.{
  Entry, view, find, update, new_entry, add, measure, add-known, add-full, add-room, measure-known,
  measure-unknown,
}
use iot_monitoring_system.SensorManager.Refinement.{register_refines, add_measurement_refines}

str_eq_sym : (a b : Bytes) → str_eq a b ≡ false → str_eq b a ≡ false
str_eq_sym a b h = ground (arith, str_eq_iff a b, str_eq_iff b a)

module _ {F : Type 0} where
  -- No entry has the id of an earlier one.
  abbrev pub IsDistinct : List (Entry F) → Type 0
  IsDistinct [] = Unit {0}
  IsDistinct (e ∷ es) = (find e.id es ≡ none) × IsDistinct es

  find-update-none :
      (id id' : Bytes) (f : Entry F → Entry F) (es : List (Entry F))
      → ((e : Entry F) → (f e).id ≡ e.id)
      → find id es ≡ none
      → find id (update id' f es) ≡ none
  find-update-none id id' f [] k h = h
  find-update-none id id' f (e ∷ es) k h = ground (arith, k e, find-update-none id id' f es k)

  IsDistinct-update :
      (id : Bytes) (f : Entry F → Entry F) (es : List (Entry F))
      → ((e : Entry F) → (f e).id ≡ e.id)
      → IsDistinct es
      → IsDistinct (update id f es)
  IsDistinct-update id f [] k h = h
  IsDistinct-update id f (e ∷ es) k h = elim (Bool-cases (str_eq e.id id)) [
    | inl hit ↦ rw hit (ap (λ i. find i es) (k e) ∙ h.0, h.1)
    | inr miss ↦ rw miss (find-update-none e.id id f es k h.0, IsDistinct-update id f es k h.1)
  ]

  find-append-none :
      (id : Bytes) (es : List (Entry F)) (x : Entry F)
      → find id es ≡ none
      → str_eq x.id id ≡ false
      → find id (es ++ x ∷ []) ≡ none
  find-append-none id [] x h k = rw k
  find-append-none id (e ∷ es) x h k = ground (arith, find-append-none id es x)

  IsDistinct-append :
      (es : List (Entry F)) (x : Entry F)
      → IsDistinct es
      → find x.id es ≡ none
      → IsDistinct (es ++ x ∷ [])
  IsDistinct-append [] x h k = (refl, tt)
  IsDistinct-append (e ∷ es) x h k = elim (Bool-cases (str_eq e.id x.id)) [
    | inl hit ↦ cc (rw hit at k)
    | inr miss ↦ (
      find-append-none e.id es x h.0 (str_eq_sym e.id x.id miss),
      IsDistinct-append es x h.1 (rw miss at k),
    )
  ]

module _ {F : Type 0} ⦃d : Doubles F⦄ where
  IsDistinct-add :
      (now : ℕ) (type id : Bytes) (es : List (Entry F))
      → length id ≤ 31
      → IsDistinct es
      → IsDistinct (add now type id es).1
  IsDistinct-add now type id es fits h = elim (Option-cases (find id es)) [
    | inl e ↦ elim (Bool-cases (leb max_sensors (length es))) [
      | inl full ↦ rw (add-full now type id es e full) h
      | inr room ↦ rw (add-room now type id es e room) (
          IsDistinct-append es (new_entry now type id) h
            (ap (λ i. find i es) (take-eq_of_le 31 id fits) ∙ e))
    ]
    | inr (x, e) ↦
        rw (add-known now type id es e)
          (IsDistinct-update id (λ e. record e { active = true }) es (λ e. refl) h)
  ]

  IsDistinct-measure :
      (now : ℕ) (id : Bytes) (value : F) (unit : Bytes) (es : List (Entry F))
      → IsDistinct es
      → IsDistinct (measure now id value unit es).1
  IsDistinct-measure now id value unit es h = elim (Option-cases (find id es)) [
    | inl e ↦ rw (measure-unknown now id value unit es e) h
    | inr (x, e) ↦ rw (measure-known now id value unit es e) (
        IsDistinct-update id
          (λ e. record e { value = value; unit = take 15 unit; time = now; active = true }) es
          (λ e. refl) h)
  ]

  -- In a valid table whose ids are distinct, a registration with an id of at most 31 bytes and any
  -- measurement leave ids that are distinct, the strings being given without NUL.
  pub sensors-IsDistinct :
      (now : ℕ) (type id unit : Bytes) (value : F) {t : Table F}
      → IsValid t
      → IsDistinct (view t)
      → NoNul type
      → NoNul id
      → NoNul unit
      → length id ≤ 31
      → IsDistinct (view (sensor_manager_register now (some type) (some id) t).1)
        × IsDistinct (view (sensor_manager_add_measurement now (some id) value (some unit) t).1)
  sensors-IsDistinct now type id unit value {t} v h ht hi hu fits = (
    subst IsDistinct (sym (ap (λ p. p.1) (register_refines now type id ht hi v)))
        (IsDistinct-add now type id (view t) fits h),
    subst IsDistinct (sym (ap (λ p. p.1) (add_measurement_refines now id value unit hu v)))
        (IsDistinct-measure now id value unit (view t) h),
  )
