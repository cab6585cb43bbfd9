-- ===== src/Health/Quality.antt =====
-- The log, disk, upload, clock and drop checks of `evaluate` in cc_mqtt_monitor/health.py.
use cc_rms_mqtt_monitor.Base.{
  not, Option, none, some, leb_ℤ, ltb, leb, if◌then◌else◌, str_eq, Text, str, int, num, fmt, cat,
  one, two, arg,
}
use cc_rms_mqtt_monitor.Config.{Thresholds, Value}
use cc_rms_mqtt_monitor.Health.{Check, degraded, error, flag, when, given}
use cc_rms_mqtt_monitor.Health.Metrics.{StationMetrics, Summary, Attribution, label, hot, to_float}
use cc_rms_mqtt_monitor.Health.Reading.{opt, text_or, says_false}

unfoldable pub check_fatal : StationMetrics → Check
check_fatal m = when (ltb 0 m.fatal_error_count) (
    flag error "log_fatal" (
      fmt "Fatal error in log (%dx): %s"
        (two (int m.fatal_error_count) (text_or m.last_error "see log"))))

unfoldable pub check_warning : StationMetrics → Thresholds → Check
check_warning m th = when (leb th.log_warning_warn m.warning_count) (
    flag degraded "log_warning" (
      fmt "Warning in log (%dx): %s"
        (two (int m.warning_count) (text_or m.last_warning "see log"))))

unfoldable pub check_watchdog : StationMetrics → Check
check_watchdog m = given m.last_watchdog_event (λ e.
    when (not (str_eq e ""))
      (flag degraded "watchdog" (fmt "Watchdog intervention: %s" (one (str e)))))

unfoldable pub check_disk : StationMetrics → Thresholds → Check
check_disk m th = given m.disk_free_gb (λ free.
    if leb_ℤ free th.disk_free_error_gb
    then flag error "disk_low" (fmt "Disk critically low: %.1f GB free" (one (num free)))
    else when (leb_ℤ free th.disk_free_warn_gb)
        (flag degraded "disk_low" (fmt "Disk low: %.1f GB free" (one (num free)))))

unfoldable pub check_upload : StationMetrics → Thresholds → Check
check_upload m th = when (leb th.upload_queue_warn m.upload_queue_len) (
    flag degraded "upload_backlog"
      (fmt "Upload backlog: %d files queued" (one (int m.upload_queue_len))))

-- `metrics.get("summary") or {}`
unfoldable pub summary_of : StationMetrics → Summary
summary_of m = elim m.summary [
  | some s ↦ s
  | none ↦ record {
    clock_synchronized = Value.null;
    clock_error_uncertainty_ms = Value.null;
    dropped_frame_rate = Value.null;
  }
]

unfoldable pub check_clock_synced : StationMetrics → Check
unfolding summary_of says_false
check_clock_synced m =
    when (says_false (summary_of m).clock_synchronized)
      (flag degraded "clock_unsynced" (str "Clock not synchronized at last summary"))

unfoldable pub check_clock_error : StationMetrics → Thresholds → Check
unfolding summary_of to_float hot
check_clock_error m th =
    let clock_err = to_float (summary_of m).clock_error_uncertainty_ms in
    when (hot clock_err th.clock_error_warn_ms)
      (flag degraded "clock_uncertainty" (fmt "Clock uncertainty %.0f ms" (one (opt clock_err))))

-- `" -- likely %s" % cause if cause else ""`
pub why : Option Attribution → Text
why none = str ""
why (some a) = fmt " -- likely %s" (one (str (label a.cause)))

-- the drop rate of the whole night
unfoldable pub check_drop_rate : StationMetrics → Thresholds → Check
unfolding summary_of to_float hot
check_drop_rate m th =
    let rate = to_float (summary_of m).dropped_frame_rate in
    when (hot rate th.dropped_frame_rate_warn_pct) (
      flag degraded "dropped_frames" (
        fmt "Dropped %.1f%% of frames last night (over %g%%)%s"
          (arg (opt rate) (two (num th.dropped_frame_rate_warn_pct) (why m.drop)))))

-- `" -- likely %s%s" % (cause, " (%s)" % detail)`, which is added where there is a cause
pub why_live : Option Attribution → Text
why_live none = str ""
why_live (some a) = fmt " -- likely %s%s" (two (str (label a.cause)) (fmt " (%s)" (one a.detail)))

-- the live count
unfoldable pub check_drops_live : StationMetrics → Thresholds → Check
check_drops_live m th = when (leb th.dropped_frames_catastrophic m.dropped_frames_10min) (
    flag error "dropped_frames_live" (
      cat
        (fmt "Severe live frame loss: %d frames dropped in last 10 min"
          (one (int m.dropped_frames_10min)))
        (why_live m.drop)))
