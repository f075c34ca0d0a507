-- ===== src/SensorManager/Registry.antt =====
-- What the sensor table promises, without arrays, counts or NULs: a list of entries in the order of
-- their registration, of which the first with an id stands for that id.
use iot_monitoring_system.Base.{
  ℕ, ◌≡◌, List, [], ◌∷◌, ◌++◌, map, Option, none, some, Bytes, Bool, true, false, c_str, take,
  length, str_eq, leb, if◌then◌else◌, Doubles,
}
use iot_monitoring_system.SensorManager.{Sensor, Table, max_sensors}

pub record Entry (F : Type 0) : Type 0 where
  pub id : Bytes
  pub type : Bytes
  pub value : F
  pub unit : Bytes
  pub time : ℕ
  pub active : Bool

module _ {F : Type 0} where
  abbrev pub entry : Sensor F → Entry F
  entry s = record {
    id = c_str s.id;
    type = c_str s.type;
    value = s.last_value;
    unit = c_str s.last_unit;
    time = s.last_timestamp;
    active = s.is_active;
  }

  -- The entries that a table stands for.
  abbrev pub view : Table F → List (Entry F)
  view t = map entry (take t.sensor_count t.sensors)

  abbrev pub find : Bytes → List (Entry F) → Option (Entry F)
  find id [] = none
  find id (e ∷ es) = if str_eq e.id id then some e else find id es

  -- Only the first entry with the id changes.
  abbrev pub update : Bytes → (Entry F → Entry F) → List (Entry F) → List (Entry F)
  update id f [] = []
  update id f (e ∷ es) = if str_eq e.id id then f e ∷ es else e ∷ update id f es

module _ {F : Type 0} ⦃d : Doubles F⦄ where
  -- An id is kept up to 31 bytes, a type up to 15.
  abbrev pub new_entry : ℕ → Bytes → Bytes → Entry F
  new_entry now type id = record {
    id = take 31 id;
    type = take 15 type;
    value = d.literal 0;
    unit = [];
    time = now;
    active = true;
  }

  -- A known id is marked active; a new one is added while there is room, else refused.
  abbrev pub add : ℕ → Bytes → Bytes → List (Entry F) → Bool × List (Entry F)
  add now type id es = elim (find id es) [
    | some e ↦ (true, update id (λ e. record e { active = true }) es)
    | none ↦
        if leb max_sensors (length es)
        then (false, es)
        else (true, es ++ new_entry now type id ∷ [])
  ]

  -- A measurement is kept in the entry of its id, and refused without one.
  abbrev pub measure : ℕ → Bytes → F → Bytes → List (Entry F) → Bool × List (Entry F)
  measure now id value unit es = elim (find id es) [
    | some e ↦ (
      true,
      update id (λ e. record e { value = value; unit = take 15 unit; time = now; active = true })
          es,
    )
    | none ↦ (false, es)
  ]

  module _ (now : ℕ) (type id : Bytes) (es : List (Entry F)) where
    pub add-known :
        {e : Entry F}
        → find id es ≡ some e
        → add now type id es ≡ (true, update id (λ e. record e { active = true }) es)
    add-known h = rw (h, add)

    pub add-full :
        find id es ≡ none → leb max_sensors (length es) ≡ true → add now type id es ≡ (false, es)
    add-full h full = rw (h, add) (rw full)

    pub add-room :
        find id es ≡ none
        → leb max_sensors (length es) ≡ false
        → add now type id es ≡ (true, es ++ new_entry now type id ∷ [])
    add-room h room = rw (h, add) (rw room)

  module _ (now : ℕ) (id : Bytes) (value : F) (unit : Bytes) (es : List (Entry F)) where
    pub measure-known :
        {e : Entry F}
        → find id es ≡ some e
        → measure now id value unit es ≡ (
          true,
          update id
              (λ e. record e { value = value; unit = take 15 unit; time = now; active = true })
              es,
        )
    measure-known h = rw (h, measure)

    pub measure-unknown : find id es ≡ none → measure now id value unit es ≡ (false, es)
    measure-unknown h = rw (h, measure)
