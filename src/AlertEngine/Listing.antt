-- ===== src/AlertEngine/Listing.antt =====
-- The text that `alert_engine_get_active_alerts` (server/src/alert_engine.c) leaves in the caller's
-- buffer.
use iot_monitoring_system.Base.{
  Bool, false, not, ◌&&◌, str_eq, c_str, append_row, ℕ, zero, suc, ◌≤◌, ◌<◌, ◌≡◌, refl, sym, ap,
  ◌∙◌, List, [], ◌∷◌, some, Bytes, true, length, if◌then◌else◌, Doubles, arith, pos, negsuc, ℤ,
  fill, fill-guard, fill-nil, fill-fits, fill-whole, concat, take,
}
use iot_monitoring_system.AlertEngine.{ActiveAlert, Engine}
use iot_monitoring_system.AlertEngine.Report.{
  is_listed, alert_row, list_alerts, alert_engine_get_active_alerts,
}

-- An alert with an id that nobody has resolved.
abbrev is_open : Bool → Bytes → Bool
is_open true id = false
is_open false [] = false
is_open false (c ∷ cs) = true

module _ {F : Type 0} ⦃d : Doubles F⦄ where
  is_listed-open : (a : ActiveAlert F) → is_listed a ≡ is_open a.is_resolved (c_str a.sensor_id)
  is_listed-open a = by_cases a.is_resolved (c_str a.sensor_id)
    where
      by_cases :
          (resolved : Bool) (id : Bytes) → not resolved && not (str_eq id []) ≡ is_open resolved id
      by_cases true id = refl
      by_cases false [] = refl
      by_cases false (c ∷ cs) = refl

  -- The rows of the alerts that have an id and are not resolved.
  abbrev listed_rows : List (ActiveAlert F) → List Bytes
  listed_rows [] = []
  listed_rows (a ∷ as') =
      if is_open a.is_resolved (c_str a.sensor_id)
      then alert_row a ∷ listed_rows as'
      else listed_rows as'

  -- The rows that an engine has to list.
  abbrev pub alert_rows : Engine F → List Bytes
  alert_rows e = listed_rows (take e.history.active_alert_count e.history.active_alerts)

  list_alerts-fill :
      (as' : List (ActiveAlert F)) (n size : ℕ) (output : Bytes)
      → list_alerts as' n size output ≡ fill size (listed_rows (take n as')) output
  unfolding list_alerts
  list_alerts-fill [] zero size output = sym (fill-nil size output)
  list_alerts-fill [] (suc n) size output = sym (fill-nil size output)
  list_alerts-fill (a ∷ as') zero size output = sym (fill-nil size output)
  list_alerts-fill (a ∷ as') (suc n) size output =
      list_alerts-fill as' n size _
      ∙ ap
          (λ b.
            fill size (listed_rows (take n as'))
              (if b then append_row size (alert_row a) output else output))
          (is_listed-open a)
      ∙ fill-guard (is_open a.is_resolved (c_str a.sensor_id)) size (alert_row a)
          (listed_rows (take n as')) output

  -- Where the rows of the alerts that have an id and are not resolved fit the buffer together, with a NUL behind
  -- them, they stand there whole, the oldest first.
  pub active_alerts_whole :
      (e : Engine F) (n : ℕ)
      → length (concat (alert_rows e)) ≤ n
      → alert_engine_get_active_alerts true (pos (suc n)) e ≡ some (concat (alert_rows e))
  unfolding alert_engine_get_active_alerts
  active_alerts_whole e n h = ap some (
      list_alerts-fill e.history.active_alerts e.history.active_alert_count (suc n) []
      ∙ fill-whole (suc n) (alert_rows e) [] (omega arith))

  -- Whatever the history holds, a result 0 leaves a text that fits the buffer together with its NUL,
  -- and is given only for a positive size.
  pub active_alerts_fit :
      (e : Engine F) (size : ℤ) {output : Bytes}
      → alert_engine_get_active_alerts true size e ≡ some output
      → (n : ℕ) × (size ≡ pos n) × (length output < n)
  unfolding alert_engine_get_active_alerts
  active_alerts_fit e (pos zero) h = cc
  active_alerts_fit e (pos (suc n)) h = (
    suc n,
    refl,
    ground (
      arith,
      list_alerts-fill e.history.active_alerts e.history.active_alert_count (suc n) [],
      fill-fits (suc n) (alert_rows e) [] (omega arith),
    ),
  )
  active_alerts_fit e (negsuc n) h = cc
