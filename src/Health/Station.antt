-- ===== src/Health/Station.antt =====
-- The capture and pipeline checks of `evaluate` in cc_mqtt_monitor/health.py, in their order.
use mathlib.Core.Option
use cc_rms_mqtt_monitor.Base.{
  zero, pos, Bool, true, false, not, ◌&&◌, Option, none, some, ℤ, ltb_ℤ, ltb, if◌then◌else◌, Text,
  str, int, num, fmt, one, two, arg,
}
use cc_rms_mqtt_monitor.Config.{Thresholds}
use cc_rms_mqtt_monitor.Health.{degraded, error, Check, flag, when, given}
use cc_rms_mqtt_monitor.Health.Metrics.{StationMetrics, Output, ff, frames, at_least, at_most, hot}
use cc_rms_mqtt_monitor.Health.Reading.{opt, num_or, is_false, equals, fmt_dur}
use cc_rms_mqtt_monitor.Health.Stall.{resolve_expected, settling}

is_ff : Output → Bool
is_ff ff = true
is_ff _ = false

is_frames : Output → Bool
is_frames frames = true
is_frames _ = false

unfoldable pub unreachable_text : StationMetrics → Text
unreachable_text m =
    fmt "Camera not pingable for %s -- capture/detection checks suppressed while it's unreachable"
      (one (fmt_dur (Option.map pos m.camera_unreachable_s)))

unfoldable pub check_unreachable : StationMetrics → Check
check_unreachable m = flag error "camera_unreachable" (unreachable_text m)

-- `" (%.0f MB total)" % mem if mem else ""`
pub memory_text : Option ℤ → Option ℤ → Text
memory_text pss rss = elim (num_or pss rss) [
  | none ↦ str ""
  | some (pos zero) ↦ str ""
  | some mem ↦ fmt " (%.0f MB total)" (one (num mem))
]

unfoldable pub check_duplicate : StationMetrics → Check
check_duplicate m = given m.capture_instances (λ inst. when (ltb 1 inst) (
    flag error "capture_duplicate" (
      fmt
        "%d StartCapture instances running for this one camera%s -- they will keep multiplying and exhaust memory; kill the extras and check what is respawning it"
        (two (int inst) (memory_text m.total_pss_mb m.total_rss_mb)))))

-- Night: stale FF files. Day: stale frames. Neither within the grace of a restart.
unfoldable pub check_stalled : StationMetrics → Thresholds → Check
unfolding is_ff is_frames
check_stalled m th =
    let expected = resolve_expected m th in
    if is_ff expected && at_least m.newest_fits_age_s th.output_fresh_error_s && not (settling m th)
    then flag error "capture_stalled"
        (fmt "Night capture stalled: no FF for %.0fs" (one (opt m.newest_fits_age_s)))
    else when
        (is_frames expected
          && at_least m.newest_frame_age_s th.output_fresh_error_s
          && not (settling m th))
        (flag error "capture_stalled"
          (fmt "Daytime capture stalled: no frames for %.0fs" (one (opt m.newest_frame_age_s))))

unfoldable pub check_platepar : StationMetrics → Check
check_platepar m = when m.platepar_res_mismatch (
    flag error "platepar_mismatch" (
      fmt "Platepar resolution %sx%s != config %sx%s -- RMS discards the platepar, no astrometry" (
        arg (int m.platepar_x_res)
          (arg (int m.platepar_y_res) (two (int m.config_width) (int m.config_height))))))

unfoldable pub check_backend : StationMetrics → Check
unfolding equals
check_backend m = when (equals m.media_backend "gst" && equals m.capture_backend "cv2") (
    flag degraded "backend_fallback" (
      str
        "Capture fell back to OpenCV (cv2): configured media_backend=gst but GStreamer didn't start"))

unfoldable pub check_fov : StationMetrics → Check
check_fov m = when m.config_fov_mismatch (
    flag degraded "config_fov_mismatch" (
      fmt
        "Config fov_w=%s deg can't solve the actual FOV (~%s deg): outside astrometry.net's 0.75-1.5x range -- a fresh auto-calibration would fail"
        (two (num m.config_fov_w) (num m.platepar_fov_h))))

unfoldable pub check_detection : StationMetrics → Thresholds → Check
unfolding is_ff
check_detection m th =
    when
      (is_ff (resolve_expected m th)
        && ltb 0 m.fits_count
        && hot m.capture_session_age_s th.detection_grace_s
        && not m.ftpdetect_present
        && not m.calstars_present)
      (flag error "detection_stalled" (
        fmt "Detection pipeline produced no output after %.0fs of capture"
          (one (opt m.capture_session_age_s))))

unfoldable pub check_timelapse_missing : StationMetrics → Thresholds → Check
unfolding is_false
check_timelapse_missing m th =
    when
      (at_least m.timelapse_session_age_s th.timelapse_grace_s && is_false m.timelapse_mp4_present)
      (flag degraded "timelapse_missing" (
        fmt
          "Frames timelapse (FramesFiles/*_frames_timelapse.mp4) not generated for the last frame session (%.0fs ago)"
          (one (opt m.timelapse_session_age_s))))

-- `overdue`: how long no timelapse has been produced, where that is a fault
unfoldable pub overdue : StationMetrics → Thresholds → Option ℤ
unfolding is_false
overdue m th = elim m.newest_timelapse_age_s [
  | none ↦ if hot m.frames_data_age_s th.timelapse_max_age_s then m.frames_data_age_s else none
  | some t ↦
      if is_false m.timelapse_mp4_present && ltb_ℤ th.timelapse_max_age_s t then some t else none
]

unfoldable pub check_timelapse_overdue : StationMetrics → Thresholds → Check
unfolding overdue
check_timelapse_overdue m th = when (at_most m.newest_frame_age_s th.output_fresh_error_s) (
    given (overdue m th) (λ t. flag degraded "timelapse_overdue" (
      fmt
        "No frames timelapse (FramesFiles/*_frames_timelapse.mp4) generated in %.1fh while saving frames"
        (one (num t)))))
