-- ===== src/AlertEngine/Resolve.antt =====
-- What `alert_engine_resolve_alert` does to the history of alerts.
use iot_monitoring_system.Base.{
  ℕ, zero, suc, ◌+◌, ◌≡◌, refl, ap, ap₂, ◌∙◌, List, [], ◌∷◌, map, some, true, not, ◌&&◌, Bytes,
  str_eq, take, if◌then◌else◌, pos, arith,
}
use iot_monitoring_system.AlertEngine.{ActiveAlert, Engine}
use iot_monitoring_system.AlertEngine.Report.{
  resolve_one, resolve_alerts, alert_engine_resolve_alert,
}
use iot_monitoring_system.AlertEngine.Recent.{Alert, alert, alerts}

module _ {F : Type 0} (id : Bytes) where
  -- An alert of the sensor, resolved; any other as it was.
  abbrev pub mark : Alert F → Alert F
  mark a = if str_eq a.id id then record a { resolved = true } else a

  -- How many alerts of the sensor are not resolved.
  abbrev pub pending : List (Alert F) → ℕ
  pending [] = 0
  pending (a ∷ xs) = (if str_eq a.id id && not a.resolved then 1 else 0) + pending xs

  resolve_one-mark :
      (a : ActiveAlert F)
      → (alert (resolve_one id a).0 ≡ mark (alert a))
        × ((resolve_one id a).1 ≡ pending (alert a ∷ []))
  unfolding resolve_one
  resolve_one-mark a = ground arith

  resolve_alerts-mark :
      (xs : List (ActiveAlert F)) (n : ℕ)
      → let (ys, k, log) = resolve_alerts id xs n in
        (map alert (take n ys) ≡ map mark (map alert (take n xs)))
        × (k ≡ pending (map alert (take n xs)))
  unfolding resolve_alerts
  resolve_alerts-mark [] zero = (refl, refl)
  resolve_alerts-mark [] (suc n) = (refl, refl)
  resolve_alerts-mark (a ∷ xs) zero = (refl, refl)
  resolve_alerts-mark (a ∷ xs) (suc n) =
      let (rest, k) = resolve_alerts-mark xs n in
      let (head, one) = resolve_one-mark a in (ap₂ ◌∷◌ head rest, omega (arith, one, k))

  pending-mark : (xs : List (Alert F)) → pending (map mark xs) ≡ 0
  pending-mark [] = refl
  pending-mark (a ∷ xs) = ground (arith, pending-mark xs)

  -- Resolving the alerts of a sensor, in any engine, marks exactly its alerts in the history as
  -- resolved and returns how many of them were not; a second call finds none.
  pub resolve_alert_history :
      (e : Engine F)
      → let (r, e', log) = alert_engine_resolve_alert (some id) e in
        (alerts e'.history ≡ map mark (alerts e.history))
        × (r ≡ pos (pending (alerts e.history)))
        × ((alert_engine_resolve_alert (some id) e').0 ≡ pos 0)
  unfolding alert_engine_resolve_alert
  resolve_alert_history e =
      let xs = e.history.active_alerts in
      let n = e.history.active_alert_count in
      let (marked, count) = resolve_alerts-mark xs n in
      let (again, later) = resolve_alerts-mark (resolve_alerts id xs n).0 n in
      (
        marked,
        ap pos count,
        ap pos (later ∙ ap pending marked ∙ pending-mark (map alert (take n xs))),
      )
