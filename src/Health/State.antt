-- ===== src/Health/State.antt =====
-- `build_state` and `build_host_state` of cc_mqtt_monitor/health.py: the records that are published.
use cc_rms_mqtt_monitor.Base.{String, Option, List, Text, or_else}
use cc_rms_mqtt_monitor.Config.{Thresholds}
use cc_rms_mqtt_monitor.Health.{Status}
use cc_rms_mqtt_monitor.Health.Metrics.{StationMetrics, HostMetrics, no_host_metrics}
use cc_rms_mqtt_monitor.Health.Drops.{classify_drops}
use cc_rms_mqtt_monitor.Health.Evaluate.{evaluate}
use cc_rms_mqtt_monitor.Health.Host.{evaluate_host}

pub record State {ℓ} (M : Type ℓ) : Type ℓ where
  pub metrics : M
  pub status : Status
  pub problems : List Text
  pub host : String
  pub host_label : String
  pub timestamp : String

-- `metrics.update(classify_drops(…))` goes before the evaluation
unfoldable pub build_state :
    StationMetrics
    → Thresholds
    → String
    → String
    → List String
    → Option HostMetrics
    → Option String
    → State StationMetrics
build_state m th host_name timestamp disabled host_metrics host_label =
    let metrics = record m { drop = classify_drops m (or_else host_metrics no_host_metrics) th } in
    let v = evaluate metrics th disabled in
    record {
      metrics = metrics;
      status = v.status;
      problems = v.problems;
      host = host_name;
      host_label = or_else host_label host_name;
      timestamp = timestamp;
    }

unfoldable pub build_host_state :
    HostMetrics → Thresholds → String → String → List String → Option String → State HostMetrics
build_host_state m th host_name timestamp disabled host_label =
    let v = evaluate_host m th disabled in
    record {
      metrics = m;
      status = v.status;
      problems = v.problems;
      host = host_name;
      host_label = or_else host_label host_name;
      timestamp = timestamp;
    }
