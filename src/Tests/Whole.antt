-- ===== src/Tests/Whole.antt =====
-- Whole rounds of the loop of cc_mqtt_monitor/monitor.py, on a host with two stations that consent and one that
-- does not.
use cc_rms_mqtt_monitor.Health.{ok}
use cc_rms_mqtt_monitor.Health.Metrics.{no_host_metrics, hot}
use cc_rms_mqtt_monitor.Health.Host.{udp_text}
use cc_rms_mqtt_monitor.Monitor.Forced.{make_udp_test_state, with_rate, marked}
use cc_rms_mqtt_monitor.Monitor.Forced.Alerts.{udp_alert_listed}
use cc_rms_mqtt_monitor.Base.{
  ◌≡◌, ◌≢◌, Memᴰ, pos, ltb_ℤ, refl, String, true, false, any, none, some, List, [], ◌∷◌, contains,
  filter,
}
use cc_rms_mqtt_monitor.Config.{Config, default_config}
use cc_rms_mqtt_monitor.StateFiles.{Cell, read_first}
use cc_rms_mqtt_monitor.Publisher.{
  tombstone, topic_for, on_connect, clear_renamed_host, previous_name, renamed, clear_name,
}
use cc_rms_mqtt_monitor.Publisher.Quietly.{says}
use cc_rms_mqtt_monitor.Cli.{new_publisher, connected_then, unpublish}
use cc_rms_mqtt_monitor.Cli.Unpublish.{retained, host_topics, opened_quietly, unpublish_clears}
use cc_rms_mqtt_monitor.Publisher.Recorded.{ids}
use cc_rms_mqtt_monitor.Publisher.Endpoints.{
  Network, connect, connect_by, establish, connect_to, build_client,
}
use cc_rms_mqtt_monitor.Discovery.{Station}
use cc_rms_mqtt_monitor.Monitor.Consent.{is_publishable}
use cc_rms_mqtt_monitor.Monitor.Records.{consenting}
use cc_rms_mqtt_monitor.Monitor.Cycles.{Loop, ids_of, publishing}
use cc_rms_mqtt_monitor.Monitor.Gather.{no_tracker}
use cc_rms_mqtt_monitor.Monitor.Whole.{Callback, Turn, Whole, inputs_of, run_turns}
use cc_rms_mqtt_monitor.Monitor.Whole.Handed.{topped, opened, publishing-handed}
use cc_rms_mqtt_monitor.Monitor.Whole.Privacy.{times, shown, never_handed}
use cc_rms_mqtt_monitor.Tests.Samples.{plain_station}
use cc_rms_mqtt_monitor.Tests.Brokers.{system, renamed_host}
use cc_rms_mqtt_monitor.Tests.Stations.{crashed}
use cc_rms_mqtt_monitor.Tests.Rounds.{machine, setup, both}

abbrev network : Network
network = record { accepts = λ b. true; connack = λ b. some 5 }

abbrev stations : List Station
stations = plain_station "US0003" ∷ both

abbrev turn : Turn
turn = record {
  callbacks = Callback.puback 3 ∷ [];
  system = system;
  mtime = none;
  file = none;
  networks = network ∷ [];
  listed = stations;
  hosted = stations;
  gathered = stations;
  machine = machine;
  shared = setup.shared;
  timestamp = "2026-01-01T00:00:00Z";
  mono = 1000;
  seen = λ s. record {
    collected = crashed;
    keyframe = record {
      peak_kb = none;
      mean_kb = none;
      stream_mbps = none;
      note = some "ffprobe failed";
    };
    ping = record { loss_pct = none; rtt_avg_ms = none; rtt_max_ms = none; note = none };
    standby_ping = none;
    stall_ping = none;
    tested = 1000;
    probed = 1000;
  };
  raised = none;
  torn = no_tracker;
  now = 10;
  stale_after = 600;
}

-- one that raises after the record of the host and that of a station, with the link lost before
abbrev raising : Turn
raising = record turn { callbacks = Callback.lost ∷ Callback.connack 0 9 ∷ []; raised = some 2 }

abbrev disconnected : Loop
disconnected = record {
  connected = false;
  cleared = [];
  publisher = record renamed_host { connected = false };
}

abbrev whole : Whole
whole = record {
  daemon = record { config = default_config; cfg_mtime = none; loop = disconnected };
  tracker = no_tracker;
}

publishing-handed_example :
    ids (publishing (inputs_of default_config turn no_tracker) disconnected).publisher
    ≡ topped
        (opened turn disconnected).connected
        (ids_of (consenting stations))
        (ids disconnected.publisher)
publishing-handed_example = publishing-handed default_config turn no_tracker disconnected

two_shown : ids_of (consenting stations) ≡ "US0003" ∷ "US0001" ∷ []
unfolding ids_of consenting filter is_publishable contains
two_shown = refl

withheld : contains "US0002" (shown (turn ∷ raising ∷ [])) ≡ false
unfolding shown ids_of consenting filter is_publishable contains
withheld = refl

never_handed_example :
    times "US0002" (ids (run_turns (turn ∷ raising ∷ []) whole).daemon.loop.publisher)
    ≡ times "US0002" (ids whole.daemon.loop.publisher)
never_handed_example = never_handed "US0002" (turn ∷ raising ∷ []) whole withheld

-- `--unpublish` on a host that was renamed
abbrev config : Config
config = record default_config { host_uid = some "meteor-1" }

abbrev name_files : List (Cell String)
name_files = record { content = some "raspberrypi-1"; writable = true } ∷ []

connects : (unpublish ("US0001" ∷ []) network (new_publisher config false name_files)).1 ≡ true
unfolding unpublish connected_then connect connect_by new_publisher
connects = refl

link_up : (opened_quietly config name_files network).connected ≡ true
unfolding new_publisher connect connect_by establish connect_to build_client on_connect
    clear_renamed_host previous_name read_first renamed clear_name
link_up = refl

station_known :
    contains
      (topic_for "stations" "US0001" "health")
      (host_topics "stations" "meteor-1" ("US0001" ∷ []))
    ≡ true
unfolding contains topic_for
station_known = refl

unpublish_clears_example :
    let p = (unpublish ("US0001" ∷ []) network (new_publisher config false name_files)).0 in
    (retained (topic_for "stations" "US0001" "health") p.sent ≡ some tombstone)
    × (any says p.sent ≡ false)
    × (p.connected ≡ false)
unpublish_clears_example =
    unpublish_clears config name_files network ("US0001" ∷ [])
      (topic_for "stations" "US0001" "health") connects link_up station_known

-- `--test-udp` on a host that has disabled the check
abbrev muted : Config
muted = record config { disabled_checks = "udp_rcvbuf_errors" ∷ [] }

rate_hot : hot (some (pos 999000)) muted.thresholds.udp_rcvbuf_errors_per_min_warn ≡ true
unfolding hot ltb_ℤ
rate_hot = refl

udp_alert_listed_example :
    let r =
      make_udp_test_state muted "2026-01-01T00:00:00Z" stations no_host_metrics none
        (some 7)
        (pos 999000) in
    Memᴰ (marked (udp_text (with_rate (pos 999000) none (some 7) no_host_metrics))) r.state.problems
    × (r.state.status ≢ ok)
udp_alert_listed_example =
    udp_alert_listed muted "2026-01-01T00:00:00Z" stations no_host_metrics none (some 7)
      (pos 999000) rate_hot
