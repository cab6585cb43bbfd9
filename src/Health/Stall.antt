-- ===== src/Health/Stall.antt =====
-- `_resolve_expected` and `output_stalled` of cc_mqtt_monitor/health.py.
use cc_rms_mqtt_monitor.Base.{
  Bool, false, Option, none, some, ℤ, float, ◌+ℤ◌, ltb_ℤ, leb_ℤ, if◌then◌else◌, some_and, or_else,
}
use cc_rms_mqtt_monitor.Config.{Thresholds}
use cc_rms_mqtt_monitor.Health.Metrics.{
  StationMetrics, Output, ff, frames, idle, FrameMode, at_least, at_most,
}

-- the sun's answer, else the camera's frame tag, else whether the session is active
resolve : Option Output → Option FrameMode → Bool → Output
resolve (some e) mode active = e
resolve none (some FrameMode.night) active = ff
resolve none (some FrameMode.day) active = frames
resolve none none active = if active then ff else idle

unfoldable pub resolve_expected : StationMetrics → Thresholds → Output
unfolding resolve
resolve_expected m th =
    resolve m.expected_output m.frame_mode
      (at_most m.capture_session_age_s th.capture_active_window_s)

unfoldable pub restart_grace : StationMetrics → Thresholds → ℤ
restart_grace m th = th.capture_restart_grace_s +ℤ or_else m.capture_wait_seconds (float 0)

-- a capture that started less than its grace ago
unfoldable pub settling : StationMetrics → Thresholds → Bool
unfolding restart_grace
settling m th = some_and m.capture_age_s (λ age. ltb_ℤ age (restart_grace m th))

-- the age of the output that is expected; the outer none where nothing is expected
unfoldable pub expected_age : Output → StationMetrics → Option (Option ℤ)
expected_age ff m = some m.newest_fits_age_s
expected_age frames m = some m.newest_frame_age_s
expected_age _ m = none

-- without any output, the age of the session, else that of the process
elapsed : StationMetrics → Option ℤ
elapsed m = elim m.capture_session_age_s [ none ↦ m.capture_age_s | some t ↦ some t ]

stalled_at : StationMetrics → Thresholds → Option (Option ℤ) → Bool
unfolding elapsed at_least
stalled_at m th none = false
stalled_at m th (some none) = at_least (elapsed m) th.output_fresh_error_s
stalled_at m th (some (some age)) = leb_ℤ th.output_fresh_error_s age

unfoldable pub output_stalled : StationMetrics → Thresholds → Bool
unfolding settling resolve_expected expected_age stalled_at
output_stalled m th =
    if settling m th then false else stalled_at m th (expected_age (resolve_expected m th) m)
