-- ===== src/Monitor/Whole.antt =====
-- A round of `run_loop` of cc_mqtt_monitor/monitor.py with what it is made of: the callbacks of the client since the
-- round before, the reload, `gather_host`, `gather` of the stations that consent, and the publishing.
-- What the collectors and probes of a station give, when a round raises, and the trackers that such a
-- round leaves are inputs. The stations are discovered anew by the loop, for the host and by `gather`.
pub mod Handed
pub mod Privacy
use mathlib.Core.Option
use cc_rms_mqtt_monitor.Base.{
  ℕ, String, Bool, Option, none, some, List, [], ◌∷◌, if◌then◌else◌, or_else,
}
use cc_rms_mqtt_monitor.Config.{Config}
use cc_rms_mqtt_monitor.Config.Reload.{System, File}
use cc_rms_mqtt_monitor.Discovery.{Station}
use cc_rms_mqtt_monitor.Health.Metrics.{StationMetrics}
use cc_rms_mqtt_monitor.Health.State.{State}
use cc_rms_mqtt_monitor.Diagnose.Probes.{KeyframeProbe, PingProbe, with_probe}
use cc_rms_mqtt_monitor.Collect.Station.{Collected, collect_station}
use cc_rms_mqtt_monitor.Publisher.{Publisher, on_connect, on_disconnect, on_publish}
use cc_rms_mqtt_monitor.Publisher.Endpoints.{Network, connect}
use cc_rms_mqtt_monitor.Monitor.Gather.{Tracker, Observation, Context, gather_station}
use cc_rms_mqtt_monitor.Monitor.Records.{Machine, Shared, HostRecord, gather_host, consenting}
use cc_rms_mqtt_monitor.Monitor.Cycles.{Inputs, has_consent}
use cc_rms_mqtt_monitor.Monitor.Daemon.{Daemon, reload, round}

-- what the collectors, the probes, the pings and the clock give for a station
pub record Seen : Type 0 where
  pub collected : Collected
  pub keyframe : KeyframeProbe
  pub ping : PingProbe
  pub standby_ping : Option Bool
  pub stall_ping : Option Bool
  pub tested : ℕ
  pub probed : ℕ

unfoldable pub observe : ℕ → Station → Seen → Observation
observe mono s v = record {
  mono = mono;
  standby_ping = v.standby_ping;
  collected = (collect_station s.station_id v.collected).metrics;
  tested = v.tested;
  probe = with_probe v.keyframe v.ping;
  probed = v.probed;
  stall_ping = v.stall_ping;
}

-- the loop of `gather` over the stations that consent
unfoldable pub gather_all :
    Context → ℕ → (Station → Seen) → List Station → Tracker → Tracker × List (State StationMetrics)
gather_all c mono seen [] tr = (tr, [])
gather_all c mono seen (s ∷ ss) tr =
    let (tr1, state) = gather_station c s.station_id (observe mono s (seen s)) tr in
    let (tr2, states) = gather_all c mono seen ss tr1 in (tr2, state ∷ states)

unfoldable pub gather :
    Context → ℕ → (Station → Seen) → List Station → Tracker → Tracker × List (State StationMetrics)
gather c mono seen stations tr = gather_all c mono seen (consenting stations) tr

-- what `gather` reads of the configuration, with the record of the host
unfoldable pub context_of : Config → String → Option HostRecord → Context
context_of config timestamp host = record {
  thresholds = config.thresholds;
  adaptive_probe = config.enable_adaptive_probe;
  disabled = config.disabled_checks;
  host_uid = or_else config.host_uid "";
  host_name = or_else config.host_name "";
  timestamp = timestamp;
  host_metrics = Option.map (λ (h : HostRecord). h.state.metrics) host;
}

-- a callback of the client
pub data Callback : Type 0 where
  connack : ℕ → ℕ → Callback
  lost : Callback
  puback : ℕ → Callback

unfoldable pub call_back : List Callback → Publisher → Publisher
call_back [] p = p
call_back (Callback.connack rc now ∷ ks) p = call_back ks (on_connect rc now p)
call_back (Callback.lost ∷ ks) p = call_back ks (on_disconnect p)
call_back (Callback.puback now ∷ ks) p = call_back ks (on_publish now p)

-- the attempts of `_connect_with_retry`
unfoldable pub connect_over : List Network → Publisher → Publisher
connect_over [] p = p
connect_over (net ∷ nets) p = connect_over nets (connect net p).0

pub record Turn : Type 0 where
  pub callbacks : List Callback
  pub system : System
  pub mtime : Option ℕ
  pub file : Option File
  pub networks : List Network
  -- what is discovered by the loop, by `gather_host` and by `gather`
  pub listed : List Station
  pub hosted : List Station
  pub gathered : List Station
  pub machine : Machine
  pub shared : Shared
  pub timestamp : String
  pub mono : ℕ
  pub seen : Station → Seen
  -- after how many records it raises, if it does, and the trackers then
  pub raised : Option ℕ
  pub torn : Tracker
  pub now : ℕ
  pub stale_after : ℕ

-- the loop with the trackers of the stations
pub record Whole : Type 0 where
  pub daemon : Daemon
  pub tracker : Tracker

unfoldable pub host_record_of : Config → Turn → Option HostRecord
host_record_of config t =
    gather_host t.machine (record { config = config; timestamp = t.timestamp; shared = t.shared })
      t.hosted

-- the records of the stations in a turn, and the trackers after it
unfoldable pub records_of : Config → Turn → Tracker → Tracker × List (State StationMetrics)
records_of config t tr =
    gather (context_of config t.timestamp (host_record_of config t)) t.mono t.seen t.gathered tr

unfoldable pub tracker_of : Config → Turn → Tracker → Tracker
tracker_of config t tr =
    if has_consent t.listed
    then elim t.raised [ none ↦ (records_of config t tr).0 | some n ↦ t.torn ]
    else tr

unfoldable pub called_back : List Callback → Daemon → Daemon
called_back ks d = record d { loop = record d.loop { publisher = call_back ks d.loop.publisher } }

-- the configuration after the reload
unfoldable pub current_config : Turn → Daemon → Config
current_config t d = (reload t.system t.mtime t.file d).0.config

-- what the cycle of a turn is given
unfoldable pub inputs_of : Config → Turn → Tracker → Inputs
inputs_of config t tr = record {
  stations = t.listed;
  connecting = connect_over t.networks;
  host = Option.map (λ (h : HostRecord). h.state) (host_record_of config t);
  states = (records_of config t tr).1;
}

-- one round, and whether the watchdog ends the process
unfoldable pub whole_round : Turn → Whole → Whole × Bool
whole_round t w =
    let d = called_back t.callbacks w.daemon in
    let config = current_config t d in
    let (d', exits) =
      round
        (record {
          system = t.system;
          mtime = t.mtime;
          file = t.file;
          raised = t.raised;
          now = t.now;
          stale_after = t.stale_after;
          inputs = inputs_of config t w.tracker;
        })
        d in
    (record { daemon = d'; tracker = tracker_of config t w.tracker }, exits)

-- the rounds, until the watchdog ends the process
unfoldable pub run_turns : List Turn → Whole → Whole
run_turns [] w = w
run_turns (t ∷ ts) w =
    let (w', exits) = whole_round t w in let rest = run_turns ts w' in if exits then w' else rest
