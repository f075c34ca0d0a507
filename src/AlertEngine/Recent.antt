-- ===== src/AlertEngine/Recent.antt =====
-- The alerts of server/src/alert_engine.c as a plain history, oldest first, and what
-- `alert_engine_check_measurement` adds to it.
mod Alerts
mod Crossing
use mathlib.Core.List.{append_assoc}
use iot_monitoring_system.Base.{
  ℕ, zero, suc, ◌+◌, ◌-◌, ◌≡◌, refl, sym, ap, ◌∙◌, List, [], ◌∷◌, ◌++◌, map, some, false, Bytes,
  c_str, NoNul, take, length, Doubles, arith, Bool-cases, inl, inr, if◌then◌else◌, keep_last,
  keep_last-append, keep_last-suc, take-eq_of_le, snprintf, length-snprintf, snprintf-NoNul, codes,
  NoNul-append, c_str-NoNul, pos,
}
use iot_monitoring_system.AlertEngine.{max_alerts, AlertThreshold, History, Engine}
use iot_monitoring_system.AlertEngine.Check.{
  add_active_alert, check_threshold, check_thresholds, alert_engine_check_measurement,
  alert_message,
}
use iot_monitoring_system.AlertEngine.Invariant.{
  IsHistory, IsValid, make_room-IsHistory, check_threshold-IsHistory,
}
unfoldable pub use iot_monitoring_system.AlertEngine.Recent.Crossing.{crosses}
use iot_monitoring_system.AlertEngine.Recent.Crossing.{triggers-crosses}
pub use iot_monitoring_system.AlertEngine.Recent.Alerts.{Alert, alert, alerts}
use iot_monitoring_system.AlertEngine.Recent.Alerts.{
  alerts-kept, alerts-make_room, alert-write_alert, alerts-push_alert,
}

module _ {F : Type 0} ⦃d : Doubles F⦄ where
  -- The alert that a measurement raises at a threshold.
  abbrev pub raised : ℕ → Bytes → Bytes → F → AlertThreshold F → Alert F
  raised now id type value th = record {
    id = take 31 id;
    type = take 15 type;
    value = value;
    level = th.level;
    time = now;
    message = alert_message type value th;
    resolved = false;
  }

  -- The thresholds that a measurement crosses.
  abbrev pub crossed : Bytes → F → List (AlertThreshold F) → List (AlertThreshold F)
  crossed type value [] = []
  crossed type value (th ∷ ths) =
      if crosses type value th then th ∷ crossed type value ths else crossed type value ths

  message-NoNul :
      (type : Bytes) (value : F) (th : AlertThreshold F)
      → NoNul type
      → NoNul (
          type
          ++ (codes ": "
              ++ (d.format value
                  ++ (b' ' ∷ (c_str th.condition ++ (b' ' ∷ d.format th.threshold_value))))))
  message-NoNul type value th ht = NoNul-append type _ ht (
    omega arith,
    (
      omega arith,
      NoNul-append (d.format value) _ (d.format-NoNul value) (
        omega arith,
        NoNul-append (c_str th.condition) _ (c_str-NoNul th.condition)
            (omega arith, d.format-NoNul th.threshold_value),
      ),
    ),
  )

  module _ (now : ℕ) (id type : Bytes) (value : F) (hi : NoNul id) (ht : NoNul type) where
    alert_message-whole :
        (th : AlertThreshold F)
        → NoNul (alert_message type value th)
          × (take 255 (alert_message type value th) ≡ alert_message type value th)
    unfolding alert_message
    alert_message-whole th =
        let text =
          type
          ++ (codes ": "
              ++ (d.format value
                  ++ (b' ' ∷ (c_str th.condition ++ (b' ' ∷ d.format th.threshold_value))))) in
        (
          snprintf-NoNul 256 text (message-NoNul type value th ht),
          take-eq_of_le 255 (snprintf 256 text)
              (omega (arith, length-snprintf 256 text (omega arith))),
        )

    alerts-add :
        (th : AlertThreshold F) {h : History F}
        → IsHistory h
        → alerts (add_active_alert now id type value th.level (alert_message type value th) h).0
          ≡ keep_last max_alerts (alerts h ++ raised now id type value th ∷ [])
    unfolding add_active_alert
    alerts-add th {h} v =
        let (text, whole) = alert_message-whole th in
        let (kept, room) = make_room-IsHistory v in
        alerts-push_alert _ (raised now id type value th) kept room (λ a ha.
          alert-write_alert now id type value th.level (alert_message type value th) hi ht text a ha
          ∙ rw whole)
        ∙ ap (λ old. old ++ raised now id type value th ∷ []) (alerts-make_room v)
        ∙ sym (keep_last-suc (max_alerts - 1) (alerts h) (raised now id type value th))

    alerts-check_threshold :
        (th : AlertThreshold F) {h : History F}
        → IsHistory h
        → alerts (check_threshold now id type value th h).1
          ≡ keep_last max_alerts
              (alerts h ++ map (raised now id type value) (crossed type value (th ∷ [])))
    unfolding check_threshold
    alerts-check_threshold th {h} v = elim (Bool-cases (crosses type value th)) [
      | inl hit ↦ rw (hit, triggers-crosses type value th ∙ hit, check_threshold) (alerts-add th v)
      | inr miss ↦ rw (miss, triggers-crosses type value th ∙ miss, check_threshold) (alerts-kept v)
    ]

    check_threshold-count :
        (th : AlertThreshold F) (h : History F)
        → (check_threshold now id type value th h).2 ≡ length (crossed type value (th ∷ []))
    unfolding check_threshold
    check_threshold-count th h = elim (Bool-cases (crosses type value th)) [
      | inl hit ↦ rw (hit, triggers-crosses type value th ∙ hit, check_threshold)
      | inr miss ↦ rw (miss, triggers-crosses type value th ∙ miss, check_threshold)
    ]

    raised-cons :
        (th : AlertThreshold F) (ths : List (AlertThreshold F))
        → map (raised now id type value) (crossed type value (th ∷ ths))
          ≡ map (raised now id type value) (crossed type value (th ∷ []))
            ++ map (raised now id type value) (crossed type value ths)
    raised-cons th ths = elim (Bool-cases (crosses type value th)) [
      | inl hit ↦ rw hit
      | inr miss ↦ rw miss
    ]

    length-crossed-cons :
        (th : AlertThreshold F) (ths : List (AlertThreshold F))
        → length (crossed type value (th ∷ ths))
          ≡ length (crossed type value (th ∷ [])) + length (crossed type value ths)
    length-crossed-cons th ths = ground arith

    alerts-check_thresholds :
        (ths : List (AlertThreshold F)) (n : ℕ) {h : History F}
        → IsHistory h
        → let (ths', h', k, log) = check_thresholds now id type value ths n h in
          (k ≡ length (crossed type value (take n ths)))
          × (alerts h'
              ≡ keep_last max_alerts
                  (alerts h ++ map (raised now id type value) (crossed type value (take n ths))))
    unfolding check_thresholds
    alerts-check_thresholds [] zero v = (refl, alerts-kept v)
    alerts-check_thresholds [] (suc n) v = (refl, alerts-kept v)
    alerts-check_thresholds (th ∷ ths) zero v = (refl, alerts-kept v)
    alerts-check_thresholds (th ∷ ths) (suc n) {h} v =
        let f = raised now id type value in
        let next = check_threshold-IsHistory now id type value th h v in
        let (count, later) = alerts-check_thresholds ths n next in
        let rest = map f (crossed type value (take n ths)) in
        (
          omega (arith, count, check_threshold-count th h, length-crossed-cons th (take n ths)),
          later
              ∙ ap (λ old. keep_last max_alerts (old ++ rest)) (alerts-check_threshold th v)
              ∙ keep_last-append max_alerts (alerts h ++ map f (crossed type value (th ∷ []))) rest
              ∙ ap (keep_last max_alerts) (
                  append_assoc (alerts h) (map f (crossed type value (th ∷ []))) rest
                  ∙ ap (◌++◌ (alerts h)) (sym (raised-cons th (take n ths)))),
        )

    -- In a valid engine, for an id and a type that are strings, a measurement raises one alert for
    -- each threshold that it crosses, in their order, and returns how many. Of the old alerts and
    -- the new, the last hundred are kept. A threshold is crossed when it is active, has the type, of
    -- which 15 bytes count, and its condition, one of ">", "<", ">=" and "<=", holds of the value.
    pub check_measurement_history :
        {e : Engine F}
        → IsValid e
        → let (r, e', log) = alert_engine_check_measurement now (some id) (some type) value e in
          let hits = crossed type value (take e.threshold_count e.thresholds) in
          (r ≡ pos (length hits))
          × (alerts e'.history
              ≡ keep_last max_alerts (alerts e.history ++ map (raised now id type value) hits))
    unfolding alert_engine_check_measurement
    check_measurement_history {e} v =
        let (count, held) = alerts-check_thresholds e.thresholds e.threshold_count v.history in
        (ap pos count, held)
