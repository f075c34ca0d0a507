-- ===== src/Main.antt =====
-- server/src/main.c: the alert engine that `main` hands to the server.
pub mod Port
pub mod Program
pub mod Startup
use iot_monitoring_system.Base.{
  ℕ, ◌≡◌, List, [], ◌∷◌, ◌++◌, map, some, Bytes, codes, take, if◌then◌else◌, Doubles, arith,
}
use iot_monitoring_system.AlertEngine.{
  AlertLevel, warning, critical, AlertThreshold, Engine, alert_engine_init,
  alert_engine_register_threshold, write_threshold,
}
use iot_monitoring_system.AlertEngine.Recent.{crosses}
use iot_monitoring_system.AlertEngine.Recent.{crossed}

module _ {F : Type 0} ⦃d : Doubles F⦄ where
  -- one call of `alert_engine_register_threshold`, whose result `main` does not look at
  abbrev register : ℕ → Bytes → ℕ → AlertLevel → Bytes → Engine F → Engine F
  register now type threshold level message e =
      (alert_engine_register_threshold now (some type) (d.literal threshold) level (codes ">")
        message e).1

  -- `alert_engine_init` and the five thresholds that follow it.
  unfoldable pub startup_engine : ℕ → Engine F
  startup_engine now = register now (codes "energy") 500 warning (codes "Energy consumption high") (
      register now (codes "vibration") 10 critical (codes "Vibration critically high") (
        register now (codes "vibration") 5 warning (codes "Vibration above normal") (
          register now (codes "temperature") 50 critical (codes "Temperature critically high") (
            register now (codes "temperature") 30 warning (codes "Temperature above normal")
              (alert_engine_init {F = F}).1))))

  -- The levels of the thresholds of an engine that a measurement crosses.
  abbrev pub levels : Bytes → F → Engine F → List AlertLevel
  levels type value e =
      map (λ (th : AlertThreshold F). th.level)
        (crossed type value (take e.threshold_count e.thresholds))

  -- The test of a threshold with the condition ">".
  abbrev pub above : ℕ → F → AlertLevel → List AlertLevel
  above threshold value level = if d.gt value (d.literal threshold) then level ∷ [] else []

  pub crossed_levels :
      (now : ℕ) (value : F)
      → (levels (codes "temperature") value (startup_engine now)
          ≡ above 30 value warning ++ above 50 value critical)
        × (levels (codes "vibration") value (startup_engine now)
            ≡ above 5 value warning ++ above 10 value critical)
        × (levels (codes "energy") value (startup_engine now) ≡ above 500 value warning)
  unfolding startup_engine alert_engine_init alert_engine_register_threshold write_threshold crosses
  crossed_levels now value = (ground arith, ground arith, ground arith)
