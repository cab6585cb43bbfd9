-- ===== src/Health/Evaluate.antt =====
-- `evaluate` of cc_mqtt_monitor/health.py: the checks composed, with its early returns.
use cc_rms_mqtt_monitor.Base.{String, not, List, if◌then◌else◌, str, Text}
use cc_rms_mqtt_monitor.Config.{Thresholds}
use cc_rms_mqtt_monitor.Health.{Verdict, fresh, Check, degraded, error, flag, ◌>>◌}
use cc_rms_mqtt_monitor.Health.Metrics.{StationMetrics}
use cc_rms_mqtt_monitor.Health.Reading.{is_false}
use cc_rms_mqtt_monitor.Health.Station.{
  check_unreachable, check_duplicate, check_stalled, check_platepar, check_backend, check_fov,
  check_detection, check_timelapse_missing, check_timelapse_overdue,
}
use cc_rms_mqtt_monitor.Health.Quality.{
  check_fatal, check_warning, check_watchdog, check_disk, check_upload, check_clock_synced,
  check_clock_error, check_drop_rate, check_drops_live,
}

-- what follows the stall check
unfoldable pub check_rest : StationMetrics → Thresholds → Check
check_rest m th =
    check_platepar m
    >> check_backend m
    >> check_fov m
    >> check_detection m th
    >> check_timelapse_missing m th
    >> check_timelapse_overdue m th
    >> check_fatal m
    >> check_warning m th
    >> check_watchdog m
    >> check_disk m th
    >> check_upload m th
    >> check_clock_synced m
    >> check_clock_error m th
    >> check_drop_rate m th
    >> check_drops_live m th

abbrev pub unreadable_text : Text
unreadable_text =
    str
      "Capture is running but the monitor can't read its data_dir (permission denied) -- RMS likely runs as a different user; make the data tree readable to the monitor's user (shared group + g+rX), or expose a readable copy at ~/RMS_data/<id>"

-- a capture that runs: its data, or that they cannot be read
unfoldable pub check_data : StationMetrics → Thresholds → Check
unfolding is_false
check_data m th =
    if is_false m.data_dir_readable
    then flag degraded "data_unreadable" unreadable_text
    else check_stalled m th >> check_rest m th

unfoldable pub check_capture : StationMetrics → Thresholds → Check
check_capture m th =
    check_duplicate m
    >> (if not m.capture_alive
        then flag error "capture_down" (str "Capture process not running")
        else check_data m th)

unfoldable pub check_station : StationMetrics → Thresholds → Check
check_station m th = if m.camera_standby then check_unreachable m else check_capture m th

unfoldable pub evaluate : StationMetrics → Thresholds → List String → Verdict
evaluate m th disabled = check_station m th disabled fresh
