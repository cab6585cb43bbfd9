-- ===== src/Monitor/Gather.antt =====
-- `_track_unreachable`, and what `gather` of cc_mqtt_monitor/monitor.py does for one station.
-- The collectors, the pings and the heavy probe are inputs; times are milliseconds of the
-- monotonic clock.
use cc_rms_mqtt_monitor.Base.{
  ℕ, ◌+◌, ◌-◌, ◌*◌, ◌/◌, String, Bool, true, false, ◌&&◌, Option, none, some, List, [], leb,
  if◌then◌else◌, Dict, Keys, lookup, insert, erase, member, add_key, discard, or_else,
}
use cc_rms_mqtt_monitor.Config.{Thresholds}
use cc_rms_mqtt_monitor.Health.Metrics.{StationMetrics, HostMetrics, no_metrics, no_host_metrics}
use cc_rms_mqtt_monitor.Health.Reading.{is_false}
use cc_rms_mqtt_monitor.Health.Stall.{output_stalled}
use cc_rms_mqtt_monitor.Health.State.{State, build_state}
use cc_rms_mqtt_monitor.Diagnose.{Escalation, should_escalate, note_escalation}

-- `_UNREACHABLE`, `_STANDBY` and `_ESCALATE`
pub record Tracker : Type 0 where
  pub unreachable : Dict ℕ
  pub standby : Keys
  pub escalate : Dict Escalation

abbrev pub no_tracker : Tracker
no_tracker = record { unreachable = []; standby = []; escalate = [] }

pub record Tracked : Type 0 where
  pub standby : Bool
  pub secs : Option ℕ
  pub since : Dict ℕ

-- the sustained clock of one station
unfoldable pub track_unreachable : String → Bool → Option Bool → ℕ → ℕ → Dict ℕ → Tracked
unfolding is_false
track_unreachable sid stalled reachable now grace d =
    if stalled && is_false reachable
    then (let since = or_else (lookup sid d) now in
        record {
          standby = leb grace (now - since);
          secs = some (now - since);
          since = insert sid since d;
        })
    else record { standby = false; secs = none; since = erase sid d }

-- `round(secs, 1)` of a time in milliseconds
unfoldable pub round_tenth : ℕ → ℕ
round_tenth ms = (ms + 50) / 100 * 100

-- one cycle of one station, as the world answers
pub record Observation : Type 0 where
  pub mono : ℕ
  -- the ping of a station in standby
  pub standby_ping : Option Bool
  pub collected : StationMetrics
  -- the clock when the need of a probe is tested, what a probe adds, the clock after it
  pub tested : ℕ
  pub probe : StationMetrics → StationMetrics
  pub probed : ℕ
  -- the ping of a station whose output is stalled
  pub stall_ping : Option Bool

-- what the station's cycle reads besides: the configuration, the host's record of the cycle, and
-- the printed time
pub record Context : Type 0 where
  pub thresholds : Thresholds
  pub adaptive_probe : Bool
  pub disabled : List String
  pub host_uid : String
  pub host_name : String
  pub timestamp : String
  pub host_metrics : Option HostMetrics

unfoldable pub station_state : Context → StationMetrics → State StationMetrics
station_state c m =
    build_state m c.thresholds c.host_uid c.timestamp c.disabled c.host_metrics (some c.host_name)

-- still no answer in standby
unfoldable pub stay_in_standby :
    Context → String → Observation → Tracker → Tracker × State StationMetrics
unfolding station_state
stay_in_standby c sid o tr =
    let t =
      track_unreachable sid true (some false) o.mono c.thresholds.camera_unreachable_grace_s
        tr.unreachable in
    let m = record (no_metrics sid) {
      camera_ping_ok = some false;
      camera_standby = true;
      camera_unreachable_s = some (round_tenth (or_else t.secs 0));
    } in
    (record tr { unreachable = t.since }, station_state c m)

-- the heavy probe, where it is enabled and worth it
unfoldable pub probe_station :
    Context → String → Observation → Dict Escalation → StationMetrics × Dict Escalation
probe_station c sid o esc =
    if c.adaptive_probe
    then (let (due, esc') =
          should_escalate sid o.collected (or_else c.host_metrics no_host_metrics) c.thresholds
            o.tested esc in
        if due
        then (o.probe o.collected, note_escalation sid c.thresholds o.probed esc')
        else (o.collected, esc'))
    else (o.collected, esc)

-- the ping is spent only on stalled output
unfoldable pub gated_ping : Bool → Option Bool → Option Bool
gated_ping stalled ping = if stalled then ping else none

-- metrics["camera_standby"] and the two fields that are set where they are known
unfoldable pub with_reachability : StationMetrics → Tracked → Option Bool → StationMetrics
with_reachability m t reachable = record m {
  camera_standby = t.standby;
  camera_ping_ok = elim reachable [ none ↦ m.camera_ping_ok | some b ↦ some b ];
  camera_unreachable_s = elim t.secs [
    | none ↦ m.camera_unreachable_s
    | some s ↦ some (round_tenth s)
  ];
}

-- the full collection
unfoldable pub collect_fully :
    Context → String → Observation → Tracker → Tracker × State StationMetrics
unfolding station_state
collect_fully c sid o tr =
    let (m, esc) = probe_station c sid o tr.escalate in
    let stalled = output_stalled m c.thresholds in
    let reachable = gated_ping stalled o.stall_ping in
    let t =
      track_unreachable sid stalled reachable o.mono c.thresholds.camera_unreachable_grace_s
        tr.unreachable in
    (
      record {
        unreachable = t.since;
        standby = if t.standby then add_key sid tr.standby else tr.standby;
        escalate = esc;
      },
      station_state c (with_reachability m t reachable),
    )

-- the station leaves standby, and its clock is cleared
unfoldable pub recover : String → Observation → Context → Tracker → Tracker
recover sid o c tr = record tr {
  standby = discard sid tr.standby;
  unreachable =
      (track_unreachable sid false o.standby_ping o.mono c.thresholds.camera_unreachable_grace_s
        tr.unreachable).since;
}

unfoldable pub gather_station :
    Context → String → Observation → Tracker → Tracker × State StationMetrics
unfolding is_false
gather_station c sid o tr =
    if member sid tr.standby
    then (if is_false o.standby_ping
        then stay_in_standby c sid o tr
        else collect_fully c sid o (recover sid o c tr))
    else collect_fully c sid o tr
