-- ===== src/Server/Dispatch/Measurement.antt =====
-- A MEASUREMENT request from end to end: the table, the history of alerts, and the broadcast.
use iot_monitoring_system.Base.{
  if◌then◌else◌, ℕ, zero, suc, ◌≤◌, ◌≡◌, refl, ap, ◌∙◌, subst, List, [], ◌∷◌, ◌++◌, map, Option,
  none, some, true, Bytes, codes, c_str, c_str-NoNul, NoNul, str_eq, drop, get_or, take, length,
  keep_last, pos, Doubles, leb, arith, Bool-cases, inl, inr,
}
use iot_monitoring_system.Protocol.Parse.{ParsedMessage, argc, arg}
use iot_monitoring_system.Protocol.Reply.{protocol_build_ok}
use iot_monitoring_system.SensorManager.{
  Sensor, sensor_manager_add_measurement, sensor_manager_get_sensor_type,
}
use iot_monitoring_system.SensorManager.Registry.{
  Entry, entry, view, find, update, measure, measure-known,
}
use iot_monitoring_system.SensorManager.Refinement.{add_measurement_refines, succeeds}
use iot_monitoring_system.SensorManager.Ids.{found-known, find-update_self}
use iot_monitoring_system.AlertEngine.{max_alerts, AlertThreshold}
use iot_monitoring_system.AlertEngine.Invariant as EngineLaws
use iot_monitoring_system.AlertEngine.Recent.{alerts, raised, crossed, check_measurement_history}
use iot_monitoring_system.Server.Operators.{Operators, broadcast_alert}
use iot_monitoring_system.Server.Dispatch.{
  Server, Handled, handle_measurement, raise_alerts, after_store, alert_sends, alerta,
}
use iot_monitoring_system.Server.Dispatch.Invariant.{IsValid}

abbrev id : ParsedMessage → Bytes
id msg = arg msg 0

abbrev unit : ParsedMessage → Bytes
unit msg = arg msg 2

pub arg-NoNul : (msg : ParsedMessage) (i : ℕ) → NoNul (arg msg i)
arg-NoNul msg i = c_str-NoNul (drop (get_or msg.args i 0) msg.raw_buffer)

-- `alerts_triggered > 0` as a test of a count.
alert_sends-count :
    (n : ℕ) (text : Bytes) (o : Operators)
    → alert_sends (pos n) text o ≡ (if leb 1 n then broadcast_alert text o else [])
alert_sends-count zero text o = refl
alert_sends-count (suc n) text o = ground arith

module _ {F : Type 0} where
  abbrev type_or_empty : Option (Entry F) → Bytes
  type_or_empty none = []
  type_or_empty (some e) = e.type

  type-NoNul :
      (sensor_id : Bytes) (ss : List (Sensor F)) (n : ℕ) {e : Entry F}
      → find sensor_id (map entry (take n ss)) ≡ some e
      → NoNul e.type
  type-NoNul sensor_id [] zero h = cc
  type-NoNul sensor_id [] (suc n) h = cc
  type-NoNul sensor_id (s ∷ ss) zero h = cc
  type-NoNul sensor_id (s ∷ ss) (suc n) h = elim (Bool-cases (str_eq (c_str s.id) sensor_id)) [
    | inl hit ↦ subst NoNul (ap type_or_empty (rw hit at h)) (c_str-NoNul s.type)
    | inr miss ↦ type-NoNul sensor_id ss n (rw miss at h)
  ]

module _ {F : Type 0} ⦃d : Doubles F⦄ (now : ℕ) (msg : ParsedMessage) where
  -- What is left of an entry after a measurement.
  abbrev pub measured : F → Entry F → Entry F
  measured value e = record e {
    value = value;
    unit = take 15 (unit msg);
    time = now;
    active = true;
  }

  -- The thresholds that the measurement crosses.
  abbrev pub hits : F → Bytes → Server F → List (AlertThreshold F)
  hits value type s = crossed type value (take s.engine.threshold_count s.engine.thresholds)

  -- What the check and the broadcast do for a sensor of a known type: the response, the history, and
  -- the sends of the alert to the operators when a threshold is crossed.
  record Raises (value : F) (type : Bytes) (s : Server F) (h : Handled F) : Type 0 where
    response : h.response ≡ protocol_build_ok (some (codes "MEASUREMENT_RECEIVED"))
    table : h.server.table ≡ s.table
    held :
        alerts h.server.engine.history
        ≡ keep_last max_alerts
            (alerts s.engine.history ++ map (raised now (id msg) type value) (hits value type s))
    sends : h.sends ≡ (
        if leb 1 (length (hits value type s))
        then broadcast_alert (alerta (id msg) type value (unit msg)) s.operators
        else [])

  raise_alerts-Raises :
      (value : F) (type : Bytes) (s : Server F)
      → EngineLaws.IsValid s.engine
      → NoNul type
      → sensor_manager_get_sensor_type (some (id msg)) s.table ≡ some type
      → Raises value type s (raise_alerts now msg value s)
  unfolding raise_alerts
  raise_alerts-Raises value type s v ht e =
      let checked = check_measurement_history now (id msg) type value (arg-NoNul msg 0) ht v in
      rw (e, raise_alerts)
        (record {
          response = refl;
          table = refl;
          held = checked.1;
          sends =
              ap (λ r. alert_sends r (alerta (id msg) type value (unit msg)) s.operators) checked.0
              ∙ alert_sends-count (length (hits value type s))
                  (alerta (id msg) type value (unit msg)) s.operators;
        })

  module _ {s : Server F} (v : IsValid s) (enough : 3 ≤ argc msg) where
    abbrev value : F
    value = d.atof (arg msg 1)

    enough_lem : leb 3 (argc msg) ≡ true
    enough_lem = ground arith

    abbrev stored : Server F
    stored = record s {
      table =
          (sensor_manager_add_measurement now (some (id msg)) value (some (unit msg)) s.table).1;
    }

    refined :
        (
          succeeds
              (sensor_manager_add_measurement now
                (some (id msg))
                value
                (some (unit msg))
                s.table).0,
          view stored.table,
        )
        ≡ measure now (id msg) value (unit msg) (view s.table)
    refined = add_measurement_refines now (id msg) value (unit msg) (arg-NoNul msg 2) v.table

    -- In a valid state, a MEASUREMENT with three arguments or more of a sensor that is in the table
    -- is acknowledged. The sensor's entry takes the value, the unit up to 15 bytes and the time,
    -- and no other entry changes; the history gets an alert for each threshold of the sensor's type
    -- that the value crosses, the last hundred alerts being kept; and the alert is broadcast to the
    -- operators when there is at least one such threshold, and nothing is sent when there is none.
    -- This holds of any value: none is refused for its size.
    pub measurement_handled :
        {e : Entry F}
        → find (id msg) (view s.table) ≡ some e
        → let h = handle_measurement now msg s in
          let crossings = hits value e.type s in
          (h.response ≡ protocol_build_ok (some (codes "MEASUREMENT_RECEIVED")))
          × (view h.server.table ≡ update (id msg) (measured value) (view s.table))
          × (alerts h.server.engine.history
              ≡ keep_last max_alerts
                  (alerts s.engine.history ++ map (raised now (id msg) e.type value) crossings))
          × (h.sends ≡ (
              if leb 1 (length crossings)
              then broadcast_alert (alerta (id msg) e.type value (unit msg)) s.operators
              else []))
    unfolding handle_measurement after_store
    measurement_handled {e} known =
        let (registered, typed, accepted) =
          found-known now (id msg) (unit msg) value s.table known in
        let after =
          ap (λ p. p.1)
            (refined ∙ measure-known now (id msg) value (unit msg) (view s.table) known) in
        let found =
          ap (find (id msg)) after
          ∙ find-update_self (id msg) (measured value) (view s.table) (λ e. refl) known in
        let (registered', typed', accepted') =
          found-known now (id msg) (unit msg) value stored.table found in
        let raises =
          raise_alerts-Raises value e.type stored v.engine
            (type-NoNul (id msg) s.table.sensors s.table.sensor_count known) typed' in
        rw (enough_lem, handle_measurement)
          (rw (accepted, after_store)
            (raises.response, ap view raises.table ∙ after, raises.held, raises.sends))
