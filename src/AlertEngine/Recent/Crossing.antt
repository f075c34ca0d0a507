-- ===== src/AlertEngine/Recent/Crossing.antt =====
-- Which thresholds of server/src/alert_engine.c a measurement crosses, said without the code.
use iot_monitoring_system.Base.{
  ◌≡◌, List, [], ◌∷◌, Bool, true, false, ◌&&◌, Bytes, codes, c_str, str_eq, take, if◌then◌else◌,
  Doubles, refl,
}
use iot_monitoring_system.AlertEngine.{AlertThreshold, check_condition}
use iot_monitoring_system.AlertEngine.Check.{triggers}

&&-assoc : (a b c : Bool) → (a && b) && c ≡ a && (b && c)
&&-assoc true b c = refl
&&-assoc false b c = refl

module _ {F : Type 0} ⦃d : Doubles F⦄ where
  -- The conditions that a threshold can have, each with its comparison.
  abbrev comparisons : List (Bytes × (F → F → Bool))
  comparisons = (codes ">", d.gt) ∷ (codes "<", d.lt) ∷ (codes ">=", d.ge) ∷ (codes "<=", d.le) ∷ []

  -- The first comparison of that name; an unknown condition never holds.
  abbrev meets : F → F → Bytes → List (Bytes × (F → F → Bool)) → Bool
  meets value threshold condition [] = false
  meets value threshold condition ((name, test) ∷ rest) =
      if str_eq condition name then test value threshold else meets value threshold condition rest

  -- The threshold is active, it is for the type, of which 15 bytes count, and the value is beyond it.
  unfoldable pub crosses : Bytes → F → AlertThreshold F → Bool
  crosses type value th =
      th.is_active
      && (str_eq (take 15 (c_str th.sensor_type)) (take 15 type)
          && meets value th.threshold_value (c_str th.condition) comparisons)

  pub triggers-crosses :
      (type : Bytes) (value : F) (th : AlertThreshold F)
      → triggers type value th ≡ crosses type value th
  unfolding triggers crosses check_condition
  triggers-crosses type value th =
      &&-assoc th.is_active (str_eq (take 15 (c_str th.sensor_type)) (take 15 type))
        (meets value th.threshold_value (c_str th.condition) comparisons)
