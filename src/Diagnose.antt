-- ===== src/Diagnose.antt =====
-- cc_mqtt_monitor/diagnose.py: the liveness ping, and when a heavy probe is worth its cost.
-- Times are milliseconds of the monotonic clock.
pub mod Backoff
pub mod Need
pub mod Probes
use cc_rms_mqtt_monitor.Base.{
  ℕ, ◌+◌, ◌*◌, min, String, Bool, true, false, not, ◌&&◌, ◌==◌, Option, none, some, ltb,
  if◌then◌else◌, Dict, lookup, insert, erase,
}
use cc_rms_mqtt_monitor.Config.{Thresholds}
use cc_rms_mqtt_monitor.Health.Metrics.{
  StationMetrics, HostMetrics, DropCause, backpressure, udp_buffer, nic, ip_frag, link_loss,
  camera_bw, uncertain, Attribution,
}
use cc_rms_mqtt_monitor.Health.Drops.{classify_drops}

-- What the ping gives: its exit code, or none where it timed out or could not be run.
unfoldable pub camera_reachable : Option String → Bool → Option ℕ → Option Bool
camera_reachable none have_ping outcome = none
camera_reachable (some host) false outcome = none
camera_reachable (some host) true none = none
camera_reachable (some host) true (some code) =
    if code == 0 then some true else if code == 1 then some false else none

-- an entry of `_ESCALATE`
pub record Escalation : Type 0 where
  pub next_t : ℕ
  pub interval : ℕ

-- `_HOST_EXPLAINED`
unfoldable pub host_explained : DropCause → Bool
host_explained camera_bw = false
host_explained uncertain = false
host_explained _ = true

-- `classify(…).get("drop_cause") in _HOST_EXPLAINED`
unfoldable pub explained : Option Attribution → Bool
explained none = false
explained (some a) = host_explained a.cause

-- no entry, or one whose time has come
unfoldable pub is_due : Option Escalation → ℕ → Bool
is_due none now = true
is_due (some st) now = not (ltb now st.next_t)

unfoldable pub should_escalate :
    String
    → StationMetrics
    → HostMetrics
    → Thresholds
    → ℕ
    → Dict Escalation
    → Bool × Dict Escalation
unfolding is_due
should_escalate sid m h th now esc =
    if ltb m.dropped_frames_10min th.dropped_frames_warn
    then (false, erase sid esc)
    else (not (explained (classify_drops m h th)) && is_due (lookup sid esc) now, esc)

-- the first interval, or twice the last one up to the maximum
unfoldable pub next_interval : Thresholds → Option Escalation → ℕ
next_interval th none = th.probe_min_interval_s
next_interval th (some st) = min (st.interval * 2) th.probe_max_interval_s

unfoldable pub note_escalation : String → Thresholds → ℕ → Dict Escalation → Dict Escalation
unfolding next_interval
note_escalation sid th now esc =
    let interval = next_interval th (lookup sid esc) in
    insert sid (record { next_t = now + interval; interval = interval }) esc
