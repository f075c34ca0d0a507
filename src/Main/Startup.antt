-- ===== src/Main/Startup.antt =====
-- The alerts that the thresholds of server/src/main.c raise.
use iot_monitoring_system.Base.{
  ℕ, ◌≤◌, ◌≡◌, refl, sym, ap, ◌∙◌, List, [], ◌∷◌, ◌++◌, map, some, Bytes, codes, take, length,
  length-map, length-append, keep_last, keep_last-whole, pos, NoNul, Doubles, arith,
}
use iot_monitoring_system.AlertEngine.{
  AlertLevel, warning, critical, AlertThreshold, Engine, alert_engine_init,
  alert_engine_register_threshold, max_alerts,
}
use iot_monitoring_system.AlertEngine.Check.{alert_engine_check_measurement}
use iot_monitoring_system.AlertEngine.Invariant as EngineLaws
use iot_monitoring_system.AlertEngine.Recent.{
  Alert, alerts, crossed, raised, check_measurement_history,
}
use iot_monitoring_system.Main.{startup_engine, levels, above, crossed_levels}

module _ {F : Type 0} ⦃d : Doubles F⦄ where
  pub startup_engine-IsValid : (now : ℕ) → EngineLaws.IsValid (startup_engine {F = F} now)
  unfolding startup_engine alert_engine_init
  startup_engine-IsValid now = EngineLaws.register_threshold-IsValid now _ _ warning _ _ (
      EngineLaws.register_threshold-IsValid now _ _ critical _ _ (
        EngineLaws.register_threshold-IsValid now _ _ warning _ _ (
          EngineLaws.register_threshold-IsValid now _ _ critical _ _ (
            EngineLaws.register_threshold-IsValid now _ _ warning _ _
              (EngineLaws.cleared-IsValid F)))))

  no_alerts_yet : (now : ℕ) → alerts (startup_engine {F = F} now).history ≡ []
  unfolding startup_engine alert_engine_init alert_engine_register_threshold
  no_alerts_yet now = refl

  length-above :
      (threshold : ℕ) (value : F) (level : AlertLevel) → length (above threshold value level) ≤ 1
  length-above threshold value level = ground arith

  length-above₂ :
      (a b : ℕ) (value : F) (l k : AlertLevel)
      → length (above a value l ++ above b value k) ≤ max_alerts
  length-above₂ a b value l k = omega (
    arith,
    length-append (above a value l) (above b value k),
    length-above a value l,
    length-above b value k,
  )

  map-raised :
      (now : ℕ) (id type : Bytes) (value : F) (ths : List (AlertThreshold F))
      → map (λ (a : Alert F). a.level) (map (raised now id type value) ths)
        ≡ map (λ (th : AlertThreshold F). th.level) ths
  map-raised now id type value [] = refl
  map-raised now id type value (th ∷ ths) = ap (◌∷◌ th.level) (map-raised now id type value ths)

  -- A measurement returns the number of some levels, and leaves alerts of these levels in the
  -- history, and no others.
  abbrev pub Raises : ℕ → Bytes → Bytes → F → List AlertLevel → Engine F → Type 0
  Raises now id type value expected e =
      let (r, e', log) = alert_engine_check_measurement now (some id) (some type) value e in
      (r ≡ pos (length expected)) × (map (λ (a : Alert F). a.level) (alerts e'.history) ≡ expected)

  module _ (start now : ℕ) (id : Bytes) (hi : NoNul id) (value : F) where
    raises :
        (type : Bytes) (expected : List AlertLevel)
        → NoNul type
        → levels type value (startup_engine start) ≡ expected
        → length expected ≤ max_alerts
        → Raises now id type value expected (startup_engine start)
    raises type expected ht e few =
        let engine = startup_engine start in
        let hits = crossed type value (take engine.threshold_count engine.thresholds) in
        let (count, held) =
          check_measurement_history now id type value hi ht (startup_engine-IsValid start) in
        let many : length hits ≡ length expected =
          sym (length-map (λ (th : AlertThreshold F). th.level) hits) ∙ ap length e in
        (
          count ∙ ap pos many,
          ap (map (λ (a : Alert F). a.level)) (
                held
                ∙ ap (λ old. keep_last max_alerts (old ++ map (raised now id type value) hits))
                    (no_alerts_yet start)
                ∙ keep_last-whole max_alerts (map (raised now id type value) hits)
                    (omega (arith, length-map (raised now id type value) hits, many, few)))
              ∙ map-raised now id type value hits
              ∙ e,
        )

    -- In the engine that `main` sets up, the first measurement of a temperature raises a warning
    -- above 30 and a critical alert above 50, one of a vibration above 5 and above 10, and one of an
    -- energy a warning above 500, each exactly when the value is `>` the threshold as a `double`:
    -- `alert_engine_check_measurement` returns how many, and these are the alerts of the history.
    pub startup_levels :
        Raises now id
          (codes "temperature")
          value
          (above 30 value warning ++ above 50 value critical)
          (startup_engine start)
        × Raises now id
            (codes "vibration")
            value
            (above 5 value warning ++ above 10 value critical)
            (startup_engine start)
        × Raises now id (codes "energy") value (above 500 value warning) (startup_engine start)
    startup_levels =
        let (temperature, vibration, energy) = crossed_levels start value in
        (
          raises (codes "temperature") _ (omega arith) temperature
              (length-above₂ 30 50 value warning critical),
          raises (codes "vibration") _ (omega arith) vibration
              (length-above₂ 5 10 value warning critical),
          raises (codes "energy") _ (omega arith) energy
              (omega (arith, length-above 500 value warning)),
        )
