-- ===== src/Monitor/Forced.antt =====
-- The records that are asked for from the command line, in cc_mqtt_monitor/monitor.py: `run_diagnose`,
-- `make_test_state`, `make_udp_test_state`. The stations that are discovered, the collectors and the
-- probes are inputs, and so is the total of UDP errors: as it was collected, and as it is read anew. The mark
-- that a record is a test stands in no field.
pub mod Alerts
use mathlib.Core.Option
use cc_rms_mqtt_monitor.Base.{
  ℕ, String, Bool, true, false, not, Option, none, some, List, [], ◌∷◌, map, filter, if◌then◌else◌,
  str_eq, codes, lower_text, or_else, ℤ, pos, Text, str, fmt, one, two,
}
use Prim.Native.String
use cc_rms_mqtt_monitor.Config.{Config}
use cc_rms_mqtt_monitor.Discovery.{Station}
use cc_rms_mqtt_monitor.Health.{Status, degraded}
use cc_rms_mqtt_monitor.Health.Metrics.{StationMetrics, HostMetrics}
use cc_rms_mqtt_monitor.Health.State.{State, build_state, build_host_state}
use cc_rms_mqtt_monitor.Diagnose.Probes.{with_probe}
use cc_rms_mqtt_monitor.Collect.Station.{collect_station}
use cc_rms_mqtt_monitor.Monitor.Gather.{station_state}
use cc_rms_mqtt_monitor.Monitor.Slug.{slug}
use cc_rms_mqtt_monitor.Monitor.Records.{
  HostRecord, Machine, Setup, Shared, gather_host, consenting, station_group, group_slug, set_of,
}
use cc_rms_mqtt_monitor.Monitor.Whole.{Seen, context_of}

-- those of the stations with the name, in any case of its letters
unfoldable pub named : Option String → List Station → List Station
named none ss = ss
named (some name) ss =
    if str_eq name ""
    then ss
    else filter (λ (s : Station). str_eq (lower_text s.station_id) (lower_text name)) ss

-- the body of the loop of `run_diagnose`
unfoldable pub diagnosed :
    Config → String → Option HostRecord → (Station → Seen) → Station → State StationMetrics
diagnosed config timestamp host seen s =
    let v = seen s in
    station_state (context_of config timestamp host)
      (with_probe v.keyframe v.ping (collect_station s.station_id v.collected).metrics)

-- `run_diagnose` of the stations that are discovered
unfoldable pub run_diagnose :
    Machine
    → Setup
    → (Station → Seen)
    → List Station
    → Option String
    → Option HostRecord × List (State StationMetrics)
run_diagnose m c seen stations name =
    let host = gather_host m c stations in
    (host, map (diagnosed c.config c.timestamp host seen) (named name (consenting stations)))

pub record TestAlert : Type 0 where
  pub station_id : String
  pub status : Status
  pub problems : List Text
  pub group : Option String
  pub group_slug : Option (List ℕ)
  pub host : String
  pub host_label : String
  pub timestamp : String

-- the station that a test alert is named after
unfoldable pub alert_base : Config → List Station → String × Option String
alert_base c [] = (or_else c.host_name "", c.group)
alert_base c (s ∷ ss) = (s.station_id, station_group c.group s)

-- `make_test_state` of the stations that are discovered
unfoldable pub make_test_state : Config → String → List Station → TestAlert
make_test_state c timestamp stations =
    let (base, group) = alert_base c (consenting stations) in
    record {
      station_id = String.◌++◌ base "-TEST";
      status = degraded;
      problems =
          fmt
            "🔔 Test alert from %s at %s -- if you received this, the MQTT -> ntfy/Telegram chain works."
            (two (str (or_else c.host_name "")) (str timestamp))
          ∷ [];
      group = group;
      group_slug = group_slug group;
      host = or_else c.host_uid "";
      host_label = or_else c.host_name "";
      timestamp = timestamp;
    }

-- the metrics of the host with a rate that is made up
unfoldable pub with_rate : ℤ → Option ℕ → Option ℕ → HostMetrics → HostMetrics
with_rate rate counted total m = record m {
  udp_rcvbuf_errors_per_min = some rate;
  udp_rcvbuf_errors = or_else counted (or_else total 0);
  udp_rcvbuf_error_pct = some (or_else m.udp_rcvbuf_error_pct (pos 0));
}

-- `"TEST: %s"`
abbrev pub marked : Text → Text
marked p = fmt "🧪 TEST: %s" (one p)

-- `set(config.disabled_checks) - {"udp_rcvbuf_errors"}`
unfoldable pub but_udp : List String → List String
but_udp = filter (λ k. not (str_eq k "udp_rcvbuf_errors"))

-- `make_udp_test_state`, from the host's metrics with the UDP counters
unfoldable pub make_udp_test_state :
    Config → String → List Station → HostMetrics → Option ℕ → Option ℕ → ℤ → HostRecord
make_udp_test_state c timestamp stations metrics counted total rate =
    let ss = consenting stations in
    let groups = set_of (map (station_group c.group) ss) in
    let state =
      build_host_state (with_rate rate counted total metrics) c.thresholds (or_else c.host_uid "")
        timestamp (but_udp c.disabled_checks) c.host_name in
    record {
      state = record state { problems = map marked state.problems };
      groups = groups;
      group_slugs = map (λ g. slug (some (codes g))) groups;
      station_ids = map (λ (s : Station). s.station_id) ss;
      shared = record {
        maintenance = false;
        maintenance_reason = none;
        rms_branch = none;
        rms_remote = none;
        repo = record { rms_up_to_date = none; rms_out_of_date_days = none };
      };
    }
