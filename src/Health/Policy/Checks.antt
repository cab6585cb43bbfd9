-- ===== src/Health/Policy/Checks.antt =====
-- Every check of cc_mqtt_monitor/health.py only reports findings.
use cc_rms_mqtt_monitor.Base.{◌≢◌, Bool, true, false, List, [], ◌∷◌, Text, arith}
use cc_rms_mqtt_monitor.Config.{Thresholds}
use cc_rms_mqtt_monitor.Health.{ok, ◌>>◌}
use cc_rms_mqtt_monitor.Health.Reports.{Reports, reports_rules, Reports-flag, Reports-when}
use cc_rms_mqtt_monitor.Health.Metrics.{StationMetrics, HostMetrics}
use cc_rms_mqtt_monitor.Health.Station.{
  check_unreachable, check_duplicate, check_stalled, check_platepar, check_backend, check_fov,
  check_detection, check_timelapse_missing, check_timelapse_overdue,
}
use cc_rms_mqtt_monitor.Health.Quality.{
  check_fatal, check_warning, check_watchdog, check_disk, check_upload, check_clock_synced,
  check_clock_error, check_drop_rate, check_drops_live,
}
use cc_rms_mqtt_monitor.Health.Evaluate.{check_rest, check_data, check_capture, check_station}
use cc_rms_mqtt_monitor.Health.Links.{LinkRule, check_links, link_check, report_slow}
use cc_rms_mqtt_monitor.Health.Host.{
  check_update_blocked, check_unclean, oom_level, oom_is_recent, oom_alert, check_oom,
  check_mem_pressure, check_udp, check_nic_errors, check_disk_errors, check_host,
}

module _ (m : StationMetrics) (th : Thresholds) where
  unreachable : Reports (check_unreachable m)
  unfolding check_unreachable
  unreachable = search reports_rules

  duplicate : Reports (check_duplicate m)
  unfolding check_duplicate
  duplicate = search reports_rules

  stalled : Reports (check_stalled m th)
  unfolding check_stalled
  stalled = search reports_rules

  pub check_rest-Reports : Reports (check_rest m th)
  unfolding check_rest check_platepar check_backend check_fov check_detection
      check_timelapse_missing check_timelapse_overdue check_fatal check_warning check_watchdog
      check_disk check_upload check_clock_synced check_clock_error check_drop_rate check_drops_live
  check_rest-Reports = search reports_rules depth 40

  by_data : Reports (check_data m th)
  unfolding check_data
  by_data = search (reports_rules, stalled, check_rest-Reports)

  capture : Reports (check_capture m th)
  unfolding check_capture
  capture = search (reports_rules, duplicate, by_data)

  pub check_station-Reports : Reports (check_station m th)
  unfolding check_station
  check_station-Reports = search (reports_rules, unreachable, capture)

oom_level-ne-ok : (m : HostMetrics) → oom_level m ≢ ok
unfolding oom_level
oom_level-ne-ok m = ground arith

oom_alert-Reports : (m : HostMetrics) (b : Bool) → Reports (oom_alert b m)
unfolding oom_alert
oom_alert-Reports m true = search (reports_rules, Reports-flag, oom_level-ne-ok m)
oom_alert-Reports m false = search reports_rules

report_slow-Reports : (l : List Text) → Reports (report_slow l)
unfolding report_slow
report_slow-Reports [] = search reports_rules
report_slow-Reports (t ∷ l) = search reports_rules

module _ (m : HostMetrics) (th : Thresholds) where
  blocked : Reports (check_update_blocked m)
  unfolding check_update_blocked
  blocked = search reports_rules

  unclean : Reports (check_unclean m th)
  unfolding check_unclean
  unclean = search reports_rules

  oom : Reports (check_oom m th)
  unfolding check_oom
  oom = Reports-when _ _ (oom_alert-Reports m (oom_is_recent m th))

  pressure : Reports (check_mem_pressure m th)
  unfolding check_mem_pressure
  pressure = search reports_rules

  udp : Reports (check_udp m th)
  unfolding check_udp
  udp = search reports_rules

  nic_errors : Reports (check_nic_errors m th)
  unfolding check_nic_errors
  nic_errors = search reports_rules

  disk_errors : Reports (check_disk_errors m)
  unfolding check_disk_errors
  disk_errors = search reports_rules

  links : (rule : LinkRule) → Reports (link_check rule m.nic_link)
  unfolding link_check
  links LinkRule.off = search reports_rules
  links LinkRule.auto = report_slow-Reports _
  links (LinkRule.floor n) = report_slow-Reports _

  check_links-Reports : Reports (check_links m th)
  unfolding check_links
  check_links-Reports = links _

  pub after_udp-Reports : Reports (check_nic_errors m th >> check_links m th >> check_disk_errors m)
  after_udp-Reports = search (reports_rules, nic_errors, check_links-Reports, disk_errors)

  pub check_host-Reports : Reports (check_host m th)
  unfolding check_host
  check_host-Reports =
      search
        (
          reports_rules, blocked, unclean, oom, pressure, udp, nic_errors, check_links-Reports,
          disk_errors,
        )
        depth 20
