-- ===== src/AlertEngine/Recent/Alerts.antt =====
-- The alerts of server/src/alert_engine.c as a plain list, oldest first, and what the writes into
-- its array do to that list.
use mathlib.Core.List.{append-nil}
use iot_monitoring_system.Base.{
  ℕ, zero, suc, ◌-◌, ◌<◌, ◌≡◌, refl, sym, ap, ◌∙◌, List, [], ◌∷◌, ◌++◌, map, Bool, false, Bytes,
  c_str, NoNul, take, drop, length, leb, arith, Bool-cases, inl, inr, keep_last, keep_last-whole,
  length-take, length-map, map-take-modify_end, c_str-strncpy,
}
use iot_monitoring_system.AlertEngine.{max_alerts, AlertLevel, ActiveAlert, History}
use iot_monitoring_system.AlertEngine.Check.{shift, make_room, write_alert, push_alert}
use iot_monitoring_system.AlertEngine.Invariant.{IsAlert, IsHistory, write_last}

-- An alert as its readers see it.
pub record Alert (F : Type 0) : Type 0 where
  pub id : Bytes
  pub type : Bytes
  pub value : F
  pub level : AlertLevel
  pub time : ℕ
  pub message : Bytes
  pub resolved : Bool

module _ {F : Type 0} where
  abbrev pub alert : ActiveAlert F → Alert F
  alert a = record {
    id = c_str a.sensor_id;
    type = c_str a.sensor_type;
    value = a.value;
    level = a.level;
    time = a.timestamp;
    message = c_str a.message;
    resolved = a.is_resolved;
  }

  -- The alerts that the history holds, oldest first.
  abbrev pub alerts : History F → List (Alert F)
  alerts h = map alert (take h.active_alert_count h.active_alerts)

  length-alerts : {h : History F} → IsHistory h → length (alerts h) ≡ h.active_alert_count
  length-alerts {h} v = omega (
    arith,
    length-map alert (take h.active_alert_count h.active_alerts),
    length-take h.active_alert_count h.active_alerts,
    v.whole,
    v.within,
  )

  -- A history that gets nothing new stays as it is.
  pub alerts-kept : {h : History F} → IsHistory h → alerts h ≡ keep_last max_alerts (alerts h ++ [])
  alerts-kept {h} v = sym (
      ap (keep_last max_alerts) (append-nil (alerts h))
      ∙ keep_last-whole max_alerts (alerts h) (omega (arith, length-alerts v, v.within)))

  map-shift :
      (g : ActiveAlert F → Alert F) (n : ℕ) (xs : List (ActiveAlert F))
      → length xs ≡ suc n
      → map g (take n (shift xs)) ≡ drop 1 (map g (take (suc n) xs))
  unfolding shift
  map-shift g n [] h = absurd (omega arith)
  map-shift g zero (x ∷ xs) h = refl
  map-shift g (suc n) (x ∷ []) h = absurd (omega arith)
  map-shift g (suc n) (x ∷ y ∷ ys) h = ap (◌∷◌ (g y)) (map-shift g n (y ∷ ys) (omega arith))

  pub alerts-make_room :
      {h : History F} → IsHistory h → alerts (make_room h) ≡ keep_last (max_alerts - 1) (alerts h)
  unfolding make_room
  alerts-make_room {h} v = elim (Bool-cases (leb max_alerts h.active_alert_count)) [
    | inl full ↦
        rw (full, make_room)
          (map-shift alert (max_alerts - 1) h.active_alerts v.whole
            ∙ ap (λ k. drop 1 (map alert (take k h.active_alerts))) {x = max_alerts}
                {y = h.active_alert_count} (ground arith)
            ∙ ap (λ k. drop k (alerts h)) {x = 1} {y = length (alerts h) - (max_alerts - 1)}
                (ground (arith, length-alerts v)))
    | inr room ↦
        rw (room, make_room)
          (sym (keep_last-whole (max_alerts - 1) (alerts h) (ground (arith, length-alerts v))))
  ]

  pub alert-write_alert :
      (now : ℕ) (id type : Bytes) (value : F) (level : AlertLevel) (message : Bytes)
      → NoNul id
      → NoNul type
      → NoNul message
      → (a : ActiveAlert F) → IsAlert a
      → alert (write_alert now id type value level message a) ≡ record {
        id = take 31 id;
        type = take 15 type;
        value = value;
        level = level;
        time = now;
        message = take 255 message;
        resolved = false;
      }
  unfolding write_alert
  alert-write_alert now id type value level message hi ht hm a h = ground (
    arith,
    c_str-strncpy a.sensor_id id 31 hi h.0,
    c_str-strncpy a.sensor_type type 15 ht h.1,
    c_str-strncpy a.message message 255 hm h.2,
    write_last 31 a.sensor_id id h.0,
    write_last 15 a.sensor_type type h.1,
    write_last 255 a.message message h.2,
  )

  pub alerts-push_alert :
      (write : ActiveAlert F → ActiveAlert F) (new : Alert F) {h : History F}
      → IsHistory h
      → h.active_alert_count < max_alerts
      → ((a : ActiveAlert F) → IsAlert a → alert (write a) ≡ new)
      → alerts (push_alert write h) ≡ alerts h ++ new ∷ []
  unfolding push_alert
  alerts-push_alert write new {h} v room k =
      map-take-modify_end IsAlert alert write new h.active_alerts h.active_alert_count v.slots k
        (omega (arith, v.whole))
