-- ===== src/Health/Host.antt =====
-- `evaluate_host` of cc_mqtt_monitor/health.py: one definition for each of its checks.
use cc_rms_mqtt_monitor.Base.{
  ℕ, String, Bool, true, false, not, ◌&&◌, ◌||◌, Option, none, some, List, ℤ, float, ◌+ℤ◌, ltb_ℤ,
  ltb, if◌then◌else◌, str_eq, some_and, is_some, Text, str, int, num, fmt, one, two, arg,
  contains_text,
}
use cc_rms_mqtt_monitor.Config.{Thresholds}
use cc_rms_mqtt_monitor.Health.{
  Status, Verdict, fresh, Check, degraded, error, flag, when, given, ◌>>◌,
}
use cc_rms_mqtt_monitor.Health.Metrics.{HostMetrics, hot, at_most}
use cc_rms_mqtt_monitor.Health.Reading.{opt, text_or, equals, fmt_dur}
use cc_rms_mqtt_monitor.Health.Links.{check_links}

unfoldable pub check_update_blocked : HostMetrics → Check
check_update_blocked m = given m.monitor_update_blocked (λ blocked. when (not (str_eq blocked "")) (
    flag degraded "update_blocked" (
      fmt "Monitor auto-update is blocked (%.120s) -- this station is stuck on old code"
        (one (str blocked)))))

-- `" (last seen alive %s)"`, the time of day written out from the age
pub seen_text : Option ℤ → Text
seen_text none = str ""
seen_text (some age) = fmt " (last seen alive %s)" (one (num age))

unfoldable pub check_unclean : HostMetrics → Thresholds → Check
unfolding equals
check_unclean m th =
    when
      (equals m.last_shutdown "unclean"
        && (not (is_some m.last_shutdown_age_s)
            || at_most m.last_shutdown_age_s th.unclean_shutdown_recent_s))
      (flag degraded "unclean_shutdown" (
        fmt "Host was not shut down cleanly %s ago -- power cut or hard reset%s"
          (two (fmt_dur m.last_shutdown_age_s) (seen_text m.last_shutdown_age_s))))

-- a capture that started after the kill
unfoldable pub restarted : HostMetrics → Bool
restarted m =
    some_and m.oom_last_age_s (λ oom. some_and m.capture_restart_age_s (λ cap. ltb_ℤ cap oom))

-- a boot after the kill, with a minute of slack
unfoldable pub rebooted : HostMetrics → Bool
rebooted m =
    some_and m.oom_last_age_s (λ oom. some_and m.uptime_s (λ up. ltb_ℤ (up +ℤ float 60) oom))

-- `metrics.get("last_oom_victim") or "?"`
unfoldable pub victim_of : HostMetrics → String
victim_of m = elim m.last_oom_victim [ none ↦ "?" | some v ↦ if str_eq v "" then "?" else v ]

-- a recent kill, or one of unknown age
unfoldable pub oom_is_recent : HostMetrics → Thresholds → Bool
oom_is_recent m th = not (is_some m.oom_last_age_s) || at_most m.oom_last_age_s th.oom_recent_s

unfoldable pub oom_level : HostMetrics → Status
oom_level m = if contains_text "python" (victim_of m) then error else degraded

-- a fresh kill, or an old one that nothing has cleared
unfoldable pub oom_alert : Bool → HostMetrics → Check
oom_alert true m =
    flag (oom_level m) "oom" (
      fmt "OOM-killer fired %dx (last victim: %s)" (two (int m.oom_kill_count) (str (victim_of m))))
oom_alert false m = flag degraded "oom" (
    fmt
      "OOM-killer fired %dx (last victim: %s) and capture has not restarted since -- restart capture (or reboot) to clear"
      (two (int m.oom_kill_count) (str (victim_of m))))

unfoldable pub check_oom : HostMetrics → Thresholds → Check
check_oom m th =
    when (ltb 0 m.oom_kill_count && not (restarted m || rebooted m))
      (oom_alert (oom_is_recent m th) m)

pub avail_text : Option ℕ → Text
avail_text none = str ""
avail_text (some mb) = fmt ", %d MB available" (one (int mb))

unfoldable pub check_mem_pressure : HostMetrics → Thresholds → Check
check_mem_pressure m th =
    if hot m.mem_psi_full_avg60 th.mem_psi_full_avg60_error
    then flag error "mem_pressure" (
        fmt "Sustained memory pressure: %.1f%% full-stall over 60s%s (OOM risk)"
          (two (opt m.mem_psi_full_avg60) (avail_text m.mem_available_mb)))
    else when (hot m.mem_psi_full_avg10 th.mem_psi_full_avg10_warn) (
        flag degraded "mem_pressure" (
          fmt "Memory pressure: %.1f%% full-stall over 10s%s"
            (two (opt m.mem_psi_full_avg10) (avail_text m.mem_available_mb))))

-- `value or 0.0`
pub or_zero : Option ℤ → Text
or_zero none = num (float 0)
or_zero (some z) = num z

abbrev pub udp_text : HostMetrics → Text
udp_text m = fmt "UDP RcvbufErrors climbing: %.1f/min (%s total, %.4f%% of datagrams)" (
    arg (opt m.udp_rcvbuf_errors_per_min)
      (two (int m.udp_rcvbuf_errors) (or_zero m.udp_rcvbuf_error_pct)))

unfoldable pub check_udp : HostMetrics → Thresholds → Check
check_udp m th =
    when (hot m.udp_rcvbuf_errors_per_min th.udp_rcvbuf_errors_per_min_warn)
      (flag degraded "udp_rcvbuf_errors" (udp_text m))

unfoldable pub check_nic_errors : HostMetrics → Thresholds → Check
check_nic_errors m th = when (hot m.nic_rx_errors_per_min th.nic_rx_errors_per_min_warn) (
    flag degraded "nic_errors" (
      fmt "NIC RX errors climbing: %.1f/min (%s total)"
        (two (opt m.nic_rx_errors_per_min) (int m.nic_rx_errors))))

unfoldable pub check_disk_errors : HostMetrics → Check
check_disk_errors m =
    if m.disk_fs_readonly
    then flag error "disk_errors" (
        fmt "Filesystem remounted READ-ONLY (disk failing): %s"
          (one (text_or m.last_disk_error "see kernel log")))
    else when (ltb 0 m.disk_error_count) (
        flag degraded "disk_errors" (
          fmt "Kernel disk I/O errors (%dx): %s"
            (two (int m.disk_error_count) (text_or m.last_disk_error "see kernel log"))))

-- the checks, in their order
unfoldable pub check_host : HostMetrics → Thresholds → Check
check_host m th =
    check_update_blocked m
    >> check_unclean m th
    >> check_oom m th
    >> check_mem_pressure m th
    >> check_udp m th
    >> check_nic_errors m th
    >> check_links m th
    >> check_disk_errors m

unfoldable pub evaluate_host : HostMetrics → Thresholds → List String → Verdict
evaluate_host m th disabled = check_host m th disabled fresh
