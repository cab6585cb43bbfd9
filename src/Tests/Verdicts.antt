-- ===== src/Tests/Verdicts.antt =====
-- Verdicts of cc_mqtt_monitor/health.py on concrete metrics.
use cc_rms_mqtt_monitor.Base.{
  ◌≡◌, refl, true, false, some, [], ◌∷◌, contains, inl, inr, float, leb_ℤ,
}
use cc_rms_mqtt_monitor.Config.{default_thresholds}
use cc_rms_mqtt_monitor.Health.{error}
use cc_rms_mqtt_monitor.Health.Metrics.{
  StationMetrics, HostMetrics, no_metrics, no_host_metrics, Output, Link,
}
use cc_rms_mqtt_monitor.Health.Reading.{is_false}
use cc_rms_mqtt_monitor.Health.Stall.{output_stalled, resolve_expected, expected_age, settling}
use cc_rms_mqtt_monitor.Health.Evaluate.{evaluate}
use cc_rms_mqtt_monitor.Health.Host.{evaluate_host}
use cc_rms_mqtt_monitor.Health.Policy.{Decided, evaluate-Decided, evaluate_host-Decided}
use cc_rms_mqtt_monitor.Health.RootCause.{stall_is_error, evaluate_root_cause, output_seen}

-- a station that captures at night and wrote its last file an hour ago
abbrev pub late : StationMetrics
late = record (no_metrics "US0001") {
  capture_alive = true;
  expected_output = some Output.ff;
  newest_fits_age_s = some (float 3600);
  disk_free_gb = some (float 3);
}

-- the same with no capture process, and with other drops
abbrev down : StationMetrics
down = record late { capture_alive = false }

abbrev down_dropping : StationMetrics
down_dropping = record down { dropped_frames_10min = 500; disk_free_gb = some (float 90) }

-- a host with a kill ten minutes ago and a slow link
abbrev killed : HostMetrics
killed = record no_host_metrics { oom_kill_count = 2; oom_last_age_s = some (float 600) }

abbrev slow : Link
slow = record {
  speed_mbps = some (float 100);
  duplex = some "full";
  expected_mbps = some (float 1000);
  partner_autoneg = some true;
}

evaluate-Decided_example : Decided (evaluate late default_thresholds)
evaluate-Decided_example = evaluate-Decided late default_thresholds

evaluate_host-Decided_example : Decided (evaluate_host killed default_thresholds)
evaluate_host-Decided_example = evaluate_host-Decided killed default_thresholds

late_off : output_stalled late default_thresholds ≡ true
unfolding output_stalled settling resolve_expected expected_age leb_ℤ
late_off = refl

late_seen : output_seen late default_thresholds ≡ true
unfolding resolve_expected expected_age
late_seen = refl

late_readable : is_false late.data_dir_readable ≡ false
unfolding is_false
late_readable = refl

late_enabled : contains "capture_stalled" ("disk" ∷ []) ≡ false
unfolding contains
late_enabled = refl

stall_is_error_example : (evaluate late default_thresholds ("disk" ∷ [])).status ≡ error
stall_is_error_example =
    stall_is_error late default_thresholds ("disk" ∷ []) refl refl late_readable late_enabled
      late_seen late_off

evaluate_root_cause_example :
    evaluate down default_thresholds [] ≡ evaluate down_dropping default_thresholds []
evaluate_root_cause_example =
    evaluate_root_cause down down_dropping default_thresholds default_thresholds [] refl refl refl
      refl refl refl refl (inr (inl refl))
