-- ===== src/RmsMode.antt =====
-- cc_mqtt_monitor/rmsmode.py: the kind of output that is expected at a time of day.
-- The ephemeris is an input: for a horizon it gives the previous rising and setting of the sun, or
-- none where there is none or it raises. Times are milliseconds of the epoch.
use cc_rms_mqtt_monitor.Base.{
  ℕ, ◌+◌, ◌≤◌, ◌<◌, ◌≡◌, ◌⊎◌, ◌↔◌, max, String, Bool, true, false, not, ◌&&◌, ◌||◌, Option, none,
  some, ltb, if◌then◌else◌, or_else, arith,
}
use cc_rms_mqtt_monitor.Health.Metrics.{Output, ff, frames, idle, transition}

-- what is read of a station
pub record Site : Type 0 where
  pub has_location : Bool
  pub continuous_capture : Bool
  pub switch_camera_modes : Bool
  pub save_frames : Bool
  pub capture_wait : Option ℕ

abbrev pub shutdown_inertia : ℕ
shutdown_inertia = 300000

unfoldable pub horizon : Site → String
horizon site = if site.continuous_capture && site.switch_camera_modes then "-9" else "-5:26"

abbrev pub grace : Site → ℕ
grace site = or_else site.capture_wait 0 + shutdown_inertia

-- the output between two crossings of the sun
unfoldable pub between : Site → ℕ → ℕ × ℕ → Output
between site now (rise, set) =
    if ltb now (max rise set + grace site)
    then transition
    else if ltb set rise
    then if site.continuous_capture && site.save_frames then frames else idle
    else ff

-- `have_ephem`: whether the ephemeris could be imported
unfoldable pub expected_output : Bool → (String → ℕ → Option (ℕ × ℕ)) → Site → ℕ → Option Output
expected_output have_ephem sun site now =
    if not have_ephem || not site.has_location then none else elim (sun (horizon site) now) [
      | none ↦ none
      | some crossing ↦ some (between site now crossing)
    ]

-- past the grace after both crossings
abbrev pub Past : Site → ℕ → ℕ → ℕ → Type 0
Past site now rise set = (rise + grace site ≤ now) × (set + grace site ≤ now)

transition_iff :
    (site : Site) (now rise set : ℕ)
    → (some (between site now (rise, set)) ≡ some transition)
      ↔ ((now < rise + grace site) ⊎ (now < set + grace site))
unfolding between
transition_iff site now rise set = ground arith

ff_iff :
    (site : Site) (now rise set : ℕ)
    → (some (between site now (rise, set)) ≡ some ff) ↔ (Past site now rise set × (rise ≤ set))
unfolding between
ff_iff site now rise set = ground arith

frames_iff :
    (site : Site) (now rise set : ℕ)
    → (some (between site now (rise, set)) ≡ some frames) ↔ (
        Past site now rise set
        × (set < rise)
        × (site.continuous_capture ≡ true)
        × (site.save_frames ≡ true))
unfolding between
frames_iff site now rise set = ground arith

idle_iff :
    (site : Site) (now rise set : ℕ)
    → (some (between site now (rise, set)) ≡ some idle) ↔ (
        Past site now rise set
        × (set < rise)
        × ((site.continuous_capture ≡ false) ⊎ (site.save_frames ≡ false)))
unfolding between
idle_iff site now rise set = ground arith

-- Where the sun's crossings are known, the output expected is in transition exactly within the
-- grace after either crossing; past both, files of the night are expected exactly where the sun
-- has set last, frames of the day exactly where it has risen last and the station captures
-- continuously and saves frames, and nothing otherwise.
pub expected_output_phases :
    (sun : String → ℕ → Option (ℕ × ℕ)) (site : Site) (now rise set : ℕ)
    → site.has_location ≡ true
    → sun (horizon site) now ≡ some (rise, set)
    → let e = expected_output true sun site now in
      ((e ≡ some transition) ↔ ((now < rise + grace site) ⊎ (now < set + grace site)))
      × ((e ≡ some ff) ↔ (Past site now rise set × (rise ≤ set)))
      × ((e ≡ some frames) ↔ (
          Past site now rise set
          × (set < rise)
          × (site.continuous_capture ≡ true)
          × (site.save_frames ≡ true)))
      × ((e ≡ some idle) ↔ (
          Past site now rise set
          × (set < rise)
          × ((site.continuous_capture ≡ false) ⊎ (site.save_frames ≡ false))))
unfolding expected_output horizon
expected_output_phases sun site now rise set located known =
    rw (located, known)
      (
        transition_iff site now rise set,
        ff_iff site now rise set,
        frames_iff site now rise set,
        idle_iff site now rise set,
      )
