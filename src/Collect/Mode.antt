-- ===== src/Collect/Mode.antt =====
-- `_expected_output` and `collect_mode` of cc_mqtt_monitor/collect.py: the output to expect now.
-- The elevation of the sun (`solar_elevation_deg`) and the ephemeris are inputs; degrees are in
-- thousandths.
use cc_rms_mqtt_monitor.Base.{
  ℕ, ◌-◌, ◌≡◌, ◌⊎◌, String, Bool, true, false, not, ◌&&◌, Option, none, some, arith, if◌then◌else◌,
  ℤ, pos, negsuc, ltb_ℤ, ltb_ℤ_iff, ◌<ℤ◌, ◌+ℤ◌,
}
use cc_rms_mqtt_monitor.Health.Metrics.{Output, ff, frames, idle, transition}
use cc_rms_mqtt_monitor.RmsMode as RmsMode
use cc_rms_mqtt_monitor.RmsMode.{Site}

-- minus the thousandths of a degree
abbrev pub below : ℕ → ℤ
below n = negsuc (n - 1)

-- the horizon minus and plus the buffer
unfoldable pub night_below : Site → ℤ
night_below s = if s.continuous_capture && s.switch_camera_modes then below 12000 else below 8400

unfoldable pub day_above : Site → ℤ
day_above s = if s.continuous_capture && s.switch_camera_modes then below 6000 else below 2400

-- `_expected_output`
unfoldable pub output_by_sun : Site → ℤ → Output
output_by_sun s elev =
    if s.continuous_capture && not s.switch_camera_modes
    then ff
    else if ltb_ℤ elev (night_below s)
    then ff
    else if ltb_ℤ (day_above s) elev
    then if s.continuous_capture && s.save_frames then frames else idle
    else transition

pub data ModeSource : Type 0 where
  rms_ephem approx : ModeSource

pub record Mode : Type 0 where
  pub site : Site
  pub solar_elevation_deg : Option ℤ
  pub expected_output : Option Output
  pub mode_source : Option ModeSource

-- the ephemeris first, else the elevation
unfoldable pub mode_by : Site → ℤ → Option Output → Mode
mode_by s elev (some o) = record {
  site = s;
  solar_elevation_deg = some elev;
  expected_output = some o;
  mode_source = some rms_ephem;
}
mode_by s elev none = record {
  site = s;
  solar_elevation_deg = some elev;
  expected_output = some (output_by_sun s elev);
  mode_source = some approx;
}

-- `round_deg` is `round(elevation, 2)`
unfoldable pub collect_mode :
    Bool → (String → ℕ → Option (ℕ × ℕ)) → (ℕ → ℤ) → (ℤ → ℤ) → Site → ℕ → Mode
collect_mode have_ephem sun elevation round_deg s now =
    if s.has_location
    then record (mode_by s (elevation now) (RmsMode.expected_output have_ephem sun s now)) {
      solar_elevation_deg = some (round_deg (elevation now));
    }
    else record { site = s; solar_elevation_deg = none; expected_output = none; mode_source = none }

abbrev pub IsDay : Output → Type 0
IsDay o = (o ≡ frames) ⊎ (o ≡ idle)

night_sun :
    (s : Site) (e : ℤ)
    → s.continuous_capture && not s.switch_camera_modes ≡ false
    → output_by_sun s e ≡ ff
    → ltb_ℤ e (night_below s) ≡ true
unfolding output_by_sun
night_sun s e switches h = ground (arith, switches, h)

day_sun :
    (s : Site) (d : ℤ)
    → s.continuous_capture && not s.switch_camera_modes ≡ false
    → IsDay (output_by_sun s d)
    → ltb_ℤ (day_above s) d ≡ true
unfolding output_by_sun
day_sun s d switches h = ground (arith, switches, h)

apart :
    (b : Bool) (e d : ℤ)
    → e <ℤ (if b then below 12000 else below 8400)
    → (if b then below 6000 else below 2400) <ℤ d
    → e +ℤ pos 6000 <ℤ d
unfolding ◌+ℤ◌
apart true e d h k = ground (arith, h, k)
apart false e d h k = ground (arith, h, k)

-- Unless the camera captures continuously without a switch of modes, the output expected from the
-- sun never goes from the night's to the day's while the sun rises by six degrees or less, nor back
-- while it sinks by as much.
pub output_never_jumps :
    (s : Site) (e d : ℤ)
    → s.continuous_capture && not s.switch_camera_modes ≡ false
    → output_by_sun s e ≡ ff
    → IsDay (output_by_sun s d)
    → e +ℤ pos 6000 <ℤ d
unfolding night_below day_above
output_never_jumps s e d switches night day =
    apart (s.continuous_capture && s.switch_camera_modes) e d
      ((ltb_ℤ_iff e (night_below s)).0 (night_sun s e switches night))
      ((ltb_ℤ_iff (day_above s) d).0 (day_sun s d switches day))
