-- ===== src/AlertEngine/Invariant/Slots.antt =====
-- The array of alerts of server/src/alert_engine.c, and the functions that write into it.
use iot_monitoring_system.Base.{
  ℕ, zero, suc, ◌≤◌, ◌<◌, ◌≡◌, refl, sym, ap, ◌∙◌, subst, List, [], ◌∷◌, Bytes, set, strncpy,
  length, leb, All, All-modify, length-modify, IsTerminated, strncpy-IsTerminated, set_last,
  Doubles, arith, Bool-cases, inl, inr, str_eq, c_str, not, ◌&&◌,
}
use iot_monitoring_system.AlertEngine.{max_alerts, AlertLevel, AlertThreshold, ActiveAlert, History}
use iot_monitoring_system.AlertEngine.Check.{
  shift, make_room, write_alert, push_alert, add_active_alert, triggers, check_threshold,
  alert_message,
}
use iot_monitoring_system.AlertEngine.Report.{resolve_one, resolve_alerts}

module _ {F : Type 0} where
  -- Each `char` array ends in a NUL.
  abbrev pub IsAlert : ActiveAlert F → Type 0
  IsAlert a =
      IsTerminated 31 a.sensor_id × IsTerminated 15 a.sensor_type × IsTerminated 255 a.message

  pub record IsHistory (h : History F) : Type 0 where
    pub whole : length h.active_alerts ≡ max_alerts
    pub within : h.active_alert_count ≤ max_alerts
    pub slots : All IsAlert h.active_alerts

pub write_last :
    (n : ℕ) (dst src : Bytes) → IsTerminated n dst → set (strncpy dst src n) n 0 ≡ strncpy dst src n
write_last n dst src h = set_last n (strncpy dst src n) (strncpy-IsTerminated dst src n h)

written-IsTerminated :
    (n : ℕ) (dst src : Bytes) → IsTerminated n dst → IsTerminated n (set (strncpy dst src n) n 0)
written-IsTerminated n dst src h =
    subst (IsTerminated n) (sym (write_last n dst src h)) (strncpy-IsTerminated dst src n h)

shift-length {ℓ} : {A : Type ℓ} (xs : List A) → length (shift xs) ≡ length xs
unfolding shift
shift-length [] = refl
shift-length (x ∷ []) = refl
shift-length (x ∷ y ∷ ys) = ap suc (shift-length (y ∷ ys))

All-shift {ℓ κ} : {A : Type ℓ} (P : A → Type κ) (xs : List A) → All P xs → All P (shift xs)
unfolding shift
All-shift P [] h = h
All-shift P (x ∷ []) h = h
All-shift P (x ∷ y ∷ ys) h = (h.1.0, All-shift P (y ∷ ys) h.1)

module _ {F : Type 0} where
  pub make_room-IsHistory :
      {h : History F}
      → IsHistory h
      → IsHistory (make_room h) × ((make_room h).active_alert_count < max_alerts)
  unfolding make_room
  make_room-IsHistory {h} v = elim (Bool-cases (leb max_alerts h.active_alert_count)) [
    | inl full ↦
        rw (full, make_room)
          (
            record {
              whole = shift-length h.active_alerts ∙ v.whole;
              within = omega arith;
              slots = All-shift IsAlert h.active_alerts v.slots;
            },
            omega arith,
          )
    | inr room ↦ rw (room, make_room) (v, ground arith)
  ]

  pub write_alert-IsAlert :
      (now : ℕ) (id type : Bytes) (value : F) (level : AlertLevel) (message : Bytes)
      (a : ActiveAlert F)
      → IsAlert a
      → IsAlert (write_alert now id type value level message a)
  unfolding write_alert
  write_alert-IsAlert now id type value level message a h = (
    written-IsTerminated 31 a.sensor_id id h.0,
    written-IsTerminated 15 a.sensor_type type h.1,
    written-IsTerminated 255 a.message message h.2,
  )

  pub push_alert-IsHistory :
      (write : ActiveAlert F → ActiveAlert F) {h : History F}
      → ((a : ActiveAlert F) → IsAlert a → IsAlert (write a))
      → IsHistory h
      → h.active_alert_count < max_alerts
      → IsHistory (push_alert write h)
  unfolding push_alert
  push_alert-IsHistory write {h} k v room = record {
    whole = length-modify h.active_alerts h.active_alert_count write ∙ v.whole;
    within = omega arith;
    slots = All-modify IsAlert h.active_alerts h.active_alert_count write v.slots k;
  }

module _ {F : Type 0} ⦃d : Doubles F⦄ where
  pub add_active_alert-IsHistory :
      (now : ℕ) (id type : Bytes) (value : F) (level : AlertLevel) (message : Bytes) {h : History F}
      → IsHistory h
      → IsHistory (add_active_alert now id type value level message h).0
  unfolding add_active_alert
  add_active_alert-IsHistory now id type value level message v =
      push_alert-IsHistory (write_alert now id type value level message)
        (write_alert-IsAlert now id type value level message) (make_room-IsHistory v).0
        (make_room-IsHistory v).1

  pub check_threshold-IsHistory :
      (now : ℕ) (id type : Bytes) (value : F) (th : AlertThreshold F) (h : History F)
      → IsHistory h
      → IsHistory (check_threshold now id type value th h).1
  unfolding check_threshold
  check_threshold-IsHistory now id type value th h v = elim (Bool-cases (triggers type value th)) [
    | inl hit ↦
        rw (hit, check_threshold)
          (add_active_alert-IsHistory now id type value th.level (alert_message type value th) v)
    | inr miss ↦ rw (miss, check_threshold) v
  ]

module _ {F : Type 0} where
  resolve_one-IsAlert : (id : Bytes) (a : ActiveAlert F) → IsAlert a → IsAlert (resolve_one id a).0
  unfolding resolve_one
  resolve_one-IsAlert id a h =
      elim (Bool-cases (str_eq (c_str a.sensor_id) id && not a.is_resolved)) [
        | inl hit ↦ rw (hit, resolve_one) h
        | inr miss ↦ rw (miss, resolve_one) h
      ]

  pub resolve_alerts-All :
      (id : Bytes) (xs : List (ActiveAlert F)) (n : ℕ)
      → All IsAlert xs
      → (length (resolve_alerts id xs n).0 ≡ length xs) × All IsAlert (resolve_alerts id xs n).0
  unfolding resolve_alerts
  resolve_alerts-All id [] n h = (refl, h)
  resolve_alerts-All id (a ∷ xs) zero h = (refl, h)
  resolve_alerts-All id (a ∷ xs) (suc n) h =
      let (same, rest) = resolve_alerts-All id xs n h.1 in
      (ap suc same, (resolve_one-IsAlert id a h.0, rest))
