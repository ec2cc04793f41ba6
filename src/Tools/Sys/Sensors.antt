-- ===== src/Tools/Sys/Sensors.antt =====
-- `read_temperature` of crates/system-tools/src/lib.rs.
use saaios.Prelude.{
  String, Option, none, some, List, [], ◌∷◌, if◌then◌else◌, starts_with, and_then, ◌+++◌,
}
use saaios.Crates.{Crates}
use saaios.Tools.World.{Machine, Look, pure, ◌>>=◌, if_some, if_true}
use saaios.Tools.Proc.{one_decimal}
use saaios.Tools.Sys.{or_null, numeral, named_by, entries}

module _ (C : Crates) where
  open C use {Value, Float, of_nat, gt, div, max_float, str, arr, obj, float, get, as_f64}

  -- Millidegrees become degrees.
  abbrev celsius_of : Float → Float
  celsius_of raw = if gt raw (of_nat 1000) then div raw (of_nat 1000) else raw

  abbrev zone_value : String → Float → Value
  zone_value name raw =
      obj (("name", str name) ∷ ("celsius", float (one_decimal C (celsius_of raw))) ∷ [])

  abbrev hottest : Option Float → List Value → Option Float
  hottest acc [] = acc
  hottest acc (z ∷ zones) = elim (and_then (get z "celsius") as_f64) [
    | none ↦ hottest acc zones
    | some v ↦ hottest (some (elim acc [ none ↦ v | some a ↦ max_float a v ])) zones
  ]

  module _ (m : Machine) where
    unfoldable pub thermal_zone : String → Look (Option Value)
    thermal_zone name =
        if_true (starts_with name "thermal_zone")
          (do
            raw ← numeral C m ("/sys/class/thermal/" +++ name +++ "/temp")
            if_some raw
                (λ raw. do
                  zname ← named_by C m ("/sys/class/thermal/" +++ name +++ "/type") name
                  pure (some (zone_value zname raw)))
                (pure none))
          (pure none)

    unfoldable pub hwmon_zone : String → Look (Option Value)
    hwmon_zone name = do
      label ← named_by C m ("/sys/class/hwmon/" +++ name +++ "/name") "hwmon"
      raw ← numeral C m ("/sys/class/hwmon/" +++ name +++ "/temp1_input")
      pure (and_then raw (λ raw. some (zone_value label raw)))

    unfoldable pub zones_of : (String → Look (Option Value)) → List String → Look (List Value)
    zones_of zone [] = pure []
    zones_of zone (name ∷ names) = do
      z ← zone name
      rest ← zones_of zone names
      pure (elim z [ none ↦ rest | some z ↦ z ∷ rest ])

    -- The sensors of hwmon are asked if there is no thermal zone.
    unfoldable pub or_hwmon : List Value → Look (List Value)
    unfolding entries zones_of hwmon_zone
    or_hwmon [] = do names ← entries C m "/sys/class/hwmon"; zones_of hwmon_zone names
    or_hwmon (z ∷ zones) = pure (z ∷ zones)

    unfoldable pub read_temperature : Look Value
    unfolding entries zones_of thermal_zone or_hwmon
    read_temperature = do
      names ← entries C m "/sys/class/thermal"
      found ← zones_of thermal_zone names
      zones ← or_hwmon found
      pure (
          obj (
            ("source", str "linux")
            ∷ ("celsius", or_null C float (hottest none zones))
            ∷ ("zones", arr zones)
            ∷ []))
