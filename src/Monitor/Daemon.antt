-- ===== src/Monitor/Daemon.antt =====
-- `run_loop` of cc_mqtt_monitor/monitor.py with its reload of the configuration, the cycles that raise, the watchdog
-- and the end. The modification time of the file and what is read from it, the attempts to
-- connect, the records and the point where a cycle raises are inputs.
pub mod Raised
use cc_rms_mqtt_monitor.Base.{
  ℕ, zero, suc, String, Bool, true, false, not, ◌&&◌, Option, none, some, List, [], ◌∷◌, ◌==◌,
  if◌then◌else◌, or_else,
}
use cc_rms_mqtt_monitor.Config.{Config}
use cc_rms_mqtt_monitor.Config.Reload.{System, File, reload_config}
use cc_rms_mqtt_monitor.Health.Metrics.{StationMetrics, HostMetrics}
use cc_rms_mqtt_monitor.Health.State.{State}
use cc_rms_mqtt_monitor.Publisher.{
  Publisher, publish_state, publish_host_state, disconnect, watchdog_exits,
}
use cc_rms_mqtt_monitor.Monitor.Cycles.{
  Loop, Inputs, publish_states, publishing, silencing, has_consent,
}

pub record Daemon : Type 0 where
  pub config : Config
  pub cfg_mtime : Option ℕ
  pub loop : Loop

-- what a reload logs
pub data Reloaded : Type 0 where
  unchanged unread reloaded : Reloaded
  restart_required : List String → Reloaded

-- `new_mtime is not None and new_mtime != cfg_mtime`
unfoldable pub is_edited : Option ℕ → Option ℕ → Bool
is_edited none old = false
is_edited (some t) none = true
is_edited (some t) (some s) = not (t == s)

-- `publisher.config = config`
unfoldable pub configure : Config → Publisher → Publisher
configure c p = record p {
  topic_prefix = c.topic_prefix;
  host_uid = or_else c.host_uid p.host_uid;
  broker = c.broker;
}

unfoldable pub log_of : Option (List String) → Reloaded
log_of none = unread
log_of (some []) = reloaded
log_of (some (f ∷ fs)) = restart_required (f ∷ fs)

unfoldable pub reload : System → Option ℕ → Option File → Daemon → Daemon × Reloaded
reload sys mtime file d =
    let (config, changed) = reload_config sys d.config file in
    if is_edited mtime d.cfg_mtime
    then (
      record {
        config = config;
        cfg_mtime = mtime;
        loop = record d.loop { publisher = configure config d.loop.publisher };
      },
      log_of changed,
    )
    else (d, unchanged)

-- the first n records
unfoldable pub first_states : ℕ → List (State StationMetrics) → List (State StationMetrics)
first_states zero ss = []
first_states (suc n) [] = []
first_states (suc n) (s ∷ ss) = s ∷ first_states n ss

-- `run_once` that raises after it has handed over so many records, the host's first
unfoldable pub run_raised :
    ℕ → Option (State HostMetrics) → List (State StationMetrics) → Publisher → Publisher
run_raised zero host states p = p
run_raised (suc n) none states p = publish_states (first_states (suc n) states) p
run_raised (suc n) (some h) states p =
    publish_states (first_states n states) (publish_host_state h p)

-- a cycle with a station that consents: whether, and after how many records, `run_once` raises
unfoldable pub try_publishing : Option ℕ → Inputs → Loop → Loop
try_publishing none i l = publishing i l
try_publishing (some n) i l =
    let p = if l.connected then l.publisher else i.connecting l.publisher in
    record l { connected = true; publisher = run_raised n i.host i.states p }

-- One round of the loop but for the sleep, and whether the watchdog ends the process: the clock and
-- the limit.
unfoldable pub cycle_once : Option ℕ → ℕ → ℕ → Inputs → Loop → Loop × Bool
cycle_once raised now stale_after i l =
    let tried = try_publishing raised i l in
    if has_consent i.stations
    then (tried, watchdog_exits stale_after now tried.publisher)
    else (silencing i l, false)

-- `finally`
unfoldable pub end_loop : Loop → Publisher
end_loop l = if l.connected then disconnect l.publisher else l.publisher

-- what one round is given
pub record Round : Type 0 where
  pub system : System
  pub mtime : Option ℕ
  pub file : Option File
  pub raised : Option ℕ
  pub now : ℕ
  pub stale_after : ℕ
  pub inputs : Inputs

unfoldable pub round : Round → Daemon → Daemon × Bool
round r d =
    let d' = (reload r.system r.mtime r.file d).0 in
    let (l, exits) = cycle_once r.raised r.now r.stale_after r.inputs d'.loop in
    (record d' { loop = l }, exits)
