-- ===== src/AlertEngine/Invariant.antt =====
-- The representation invariant of server/src/alert_engine.c, and the functions that change its
-- state.
mod Slots
use iot_monitoring_system.Base.{
  ℕ, zero, suc, ◌+◌, ◌≤◌, ◌≡◌, refl, sym, ap, ◌∙◌, subst, List, [], ◌∷◌, Option, none, some, false,
  Bytes, set, length, leb, All, All-modify, All-replicate, length-modify, length-replicate,
  IsTerminated, strncpy-IsTerminated, set_last, Doubles, arith, Bool-cases, inl, inr, modify,
}
use iot_monitoring_system.AlertEngine.{
  max_alerts, AlertLevel, AlertThreshold, History, Engine, blank_threshold, blank_alert, cleared,
  alert_engine_register_threshold, write_threshold,
}
use iot_monitoring_system.AlertEngine.Check.{
  triggers, check_threshold, check_thresholds, alert_engine_check_measurement,
}
use iot_monitoring_system.AlertEngine.Report.{alert_engine_resolve_alert}
pub use iot_monitoring_system.AlertEngine.Invariant.Slots.{
  IsAlert, IsHistory, write_last, make_room-IsHistory, write_alert-IsAlert, push_alert-IsHistory,
  add_active_alert-IsHistory, check_threshold-IsHistory,
}
use iot_monitoring_system.AlertEngine.Invariant.Slots.{resolve_alerts-All}

module _ {F : Type 0} where
  -- Each `char` array ends in a NUL.
  abbrev pub IsThreshold : AlertThreshold F → Type 0
  IsThreshold th =
      IsTerminated 15 th.sensor_type × IsTerminated 7 th.condition × IsTerminated 255 th.message

  pub record IsValid (e : Engine F) : Type 0 where
    pub whole : length e.thresholds ≡ max_alerts
    pub within : e.threshold_count ≤ max_alerts
    pub slots : All IsThreshold e.thresholds
    pub history : IsHistory e.history

module _ {F : Type 0} ⦃d : Doubles F⦄ where
  check_threshold-IsThreshold :
      (now : ℕ) (id type : Bytes) (value : F) (th : AlertThreshold F) (h : History F)
      → IsThreshold th
      → IsThreshold (check_threshold now id type value th h).0
  unfolding check_threshold
  check_threshold-IsThreshold now id type value th h v =
      elim (Bool-cases (triggers type value th)) [
        | inl hit ↦ rw (hit, check_threshold) v
        | inr miss ↦ rw (miss, check_threshold) v
      ]

  record Checked (ths : List (AlertThreshold F)) (h : History F) (k : ℕ) : Type 0 where
    whole : length ths ≡ k
    slots : All IsThreshold ths
    history : IsHistory h

  check_thresholds-Checked :
      (now : ℕ) (id type : Bytes) (value : F) (ths : List (AlertThreshold F)) (n : ℕ)
      (h : History F)
      → All IsThreshold ths
      → IsHistory h
      → let (ths', h', k, log) = check_thresholds now id type value ths n h in
        Checked ths' h' (length ths)
  unfolding check_thresholds
  check_thresholds-Checked now id type value [] n h s v = record {
    whole = refl;
    slots = s;
    history = v;
  }
  check_thresholds-Checked now id type value (th ∷ ths) zero h s v = record {
    whole = refl;
    slots = s;
    history = v;
  }
  check_thresholds-Checked now id type value (th ∷ ths) (suc n) h s v =
      let rest =
        check_thresholds-Checked now id type value ths n (check_threshold now id type value th h).1
          s.1 (check_threshold-IsHistory now id type value th h v) in
      record {
        whole = ap suc rest.whole;
        slots = (check_threshold-IsThreshold now id type value th h s.0, rest.slots);
        history = rest.history;
      }

  -- Every call of `alert_engine_check_measurement` keeps the engine valid: no alert is written
  -- outside the array, and the counts stay within it.
  pub check_measurement-IsValid :
      (now : ℕ) (id type : Option Bytes) (value : F) {e : Engine F}
      → IsValid e
      → IsValid (alert_engine_check_measurement now id type value e).1
  unfolding alert_engine_check_measurement
  check_measurement-IsValid now none type value v = v
  check_measurement-IsValid now (some id) none value v = v
  check_measurement-IsValid now (some id) (some type) value {e} v =
      let c =
        check_thresholds-Checked now id type value e.thresholds e.threshold_count e.history v.slots
          v.history in
      record { whole = c.whole ∙ v.whole; within = v.within; slots = c.slots; history = c.history }

  write_threshold-IsThreshold :
      (now : ℕ) (type : Bytes) (threshold : F) (level : AlertLevel) (condition message : Bytes)
      (th : AlertThreshold F)
      → IsThreshold th
      → IsThreshold (write_threshold now type threshold level condition message th)
  unfolding write_threshold
  write_threshold-IsThreshold now type threshold level condition message th h = (
    strncpy-IsTerminated (set th.sensor_type 15 0) type 15
        (subst (IsTerminated 15) (sym (set_last 15 th.sensor_type h.0)) h.0),
    strncpy-IsTerminated th.condition condition 7 h.1,
    strncpy-IsTerminated th.message message 255 h.2,
  )

  new_threshold-IsValid :
      (now : ℕ) (type : Bytes) (threshold : F) (level : AlertLevel) (condition message : Bytes)
      {e : Engine F}
      → IsValid e
      → leb max_alerts e.threshold_count ≡ false
      → IsValid (record e {
        thresholds =
            modify e.thresholds e.threshold_count
              (write_threshold now type threshold level condition message);
        threshold_count = e.threshold_count + 1;
      })
  new_threshold-IsValid now type threshold level condition message {e} v room = record {
    whole =
        length-modify e.thresholds e.threshold_count
          (write_threshold now type threshold level condition message)
        ∙ v.whole;
    within = ground arith;
    slots =
        All-modify IsThreshold e.thresholds e.threshold_count
          (write_threshold now type threshold level condition message) v.slots
          (write_threshold-IsThreshold now type threshold level condition message);
    history = v.history;
  }

  -- Every call of `alert_engine_register_threshold` keeps the engine valid.
  pub register_threshold-IsValid :
      (now : ℕ) (type : Option Bytes) (threshold : F) (level : AlertLevel)
      (condition message : Bytes) {e : Engine F}
      → IsValid e
      → IsValid (alert_engine_register_threshold now type threshold level condition message e).1
  unfolding alert_engine_register_threshold
  register_threshold-IsValid now none threshold level condition message {e} v =
      elim (Bool-cases (leb max_alerts e.threshold_count)) [
        | inl full ↦ rw (full, alert_engine_register_threshold) v
        | inr room ↦ rw (room, alert_engine_register_threshold) v
      ]
  register_threshold-IsValid now (some type) threshold level condition message {e} v =
      elim (Bool-cases (leb max_alerts e.threshold_count)) [
        | inl full ↦ rw (full, alert_engine_register_threshold) v
        | inr room ↦ elim (Bool-cases (leb (length type) 0)) [
          | inl blank ↦ rw (room, blank, alert_engine_register_threshold) v
          | inr named ↦
              rw (room, named, alert_engine_register_threshold)
                (new_threshold-IsValid now type threshold level condition message v room)
        ]
      ]

module _ {F : Type 0} where
  -- Every call of `alert_engine_resolve_alert` keeps the engine valid.
  pub resolve_alert-IsValid :
      (id : Option Bytes) {e : Engine F} → IsValid e → IsValid (alert_engine_resolve_alert id e).1
  unfolding alert_engine_resolve_alert
  resolve_alert-IsValid none v = v
  resolve_alert-IsValid (some id) {e} v =
      let (same, all) =
        resolve_alerts-All id e.history.active_alerts e.history.active_alert_count
          v.history.slots in
      record {
        whole = v.whole;
        within = v.within;
        slots = v.slots;
        history = record { whole = same ∙ v.history.whole; within = v.history.within; slots = all };
      }

-- What `alert_engine_init` and `alert_engine_cleanup` leave is valid.
pub cleared-IsValid : (F : Type 0) ⦃d : Doubles F⦄ → IsValid (cleared {F = F})
cleared-IsValid F = record {
  whole = length-replicate max_alerts (blank_threshold {F = F});
  within = omega arith;
  slots = All-replicate IsThreshold max_alerts (blank_threshold {F = F}) (refl, refl, refl);
  history = record {
    whole = length-replicate max_alerts (blank_alert {F = F});
    within = omega arith;
    slots = All-replicate IsAlert max_alerts (blank_alert {F = F}) (refl, refl, refl);
  };
}
