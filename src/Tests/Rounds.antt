-- ===== src/Tests/Rounds.antt =====
-- Rounds of the loop of cc_mqtt_monitor/monitor.py, its waits, and the probes, on concrete inputs.
use cc_rms_mqtt_monitor.Base.{
  ℕ, ◌+◌, ◌≤◌, ◌≡◌, refl, max, String, true, false, not, ◌||◌, Option, none, some, List, [], ◌∷◌,
  arith, leb, ◌==◌, codes, infix_of, starts_with, is_space, has_suffix, str_eq, contains, is_some,
  ℤ, pos, lookup, member, if◌then◌else◌,
}
use cc_rms_mqtt_monitor.Config.{default_config}
use cc_rms_mqtt_monitor.Discovery.{Station}
use cc_rms_mqtt_monitor.Health.Metrics.{no_host_metrics}
use cc_rms_mqtt_monitor.Publisher.Offline.{emptied}
use cc_rms_mqtt_monitor.Monitor.Consent.{is_publishable, opted_out, Sent}
use cc_rms_mqtt_monitor.Monitor.Cycles.{Loop, Inputs, publishing}
use cc_rms_mqtt_monitor.Monitor.Daemon.Raised.{all_raised, raised_then_wiped}
use cc_rms_mqtt_monitor.Monitor.Slug.{
  slug, words_of, or_none, joined, collapse, lstrip_dash, rstrip_dash, is_alnum, is_nil,
}
use cc_rms_mqtt_monitor.Monitor.Slug.Words.{slug-words}
use cc_rms_mqtt_monitor.Monitor.Records.{Machine, Setup, HostRecord, host_record}
use cc_rms_mqtt_monitor.Monitor.Retry.{
  Attempts, connect_with_retry, attempted, doubled_waits, connect_with_retry_returns,
}
use cc_rms_mqtt_monitor.Monitor.Sleep.{
  Waking, sleep_until_next, sleep_until, awake, differs, maint_poll, sleep_until_next_returns,
  sleep_until_next_soon,
}
use cc_rms_mqtt_monitor.Diagnose.Probes.{
  probe_keyframe, probe_network, note_unread, read_lines, read_line, is_in, read_stats, stats_of,
  after_equals_sign, split_at, glue_char, begins, pieces, read_loss, is_gap, drop_last, read_or,
}
use cc_rms_mqtt_monitor.Diagnose.Probes.Notes.{IsTold, probes-IsTold}
use cc_rms_mqtt_monitor.Tests.Samples.{plain_station}
use cc_rms_mqtt_monitor.Tests.Brokers.{renamed_host}

-- the handle of a group of cameras
cameras_slug : slug (some (codes "  Elginfield / Cameras!")) ≡ some (codes "Elginfield-Cameras")
unfolding slug codes collapse lstrip_dash rstrip_dash is_alnum is_nil or_none
cameras_slug = refl

abbrev cameras : Option (List ℕ)
cameras = some (codes "  Elginfield / Cameras!")

slug-words_example :
    (slug cameras ≡ or_none (joined (words_of cameras)))
    × (words_of (slug cameras) ≡ words_of cameras)
    × (slug (slug cameras) ≡ slug cameras)
slug-words_example = slug-words cameras

-- a host with two stations that consent and one that does not
abbrev open_station : Station
open_station = record (plain_station "US0001") { camera_group_name = some "North" }

abbrev shut_station : Station
shut_station = record (plain_station "US0002") {
  weblog_enable = false;
  camera_group_name = some "Hidden";
}

abbrev pub machine : Machine
machine = record {
  iface_for_ip = λ ip. none;
  collect_host = λ udp ifaces paths. no_host_metrics;
  capture_age = λ s. none;
}

abbrev pub setup : Setup
setup = record {
  config = default_config;
  timestamp = "2026-01-01T00:00:00Z";
  shared = record {
    maintenance = false;
    maintenance_reason = none;
    rms_branch = none;
    rms_remote = none;
    repo = record { rms_up_to_date = none; rms_out_of_date_days = none };
  };
}

abbrev pub both : List Station
both = open_station ∷ shut_station ∷ []

abbrev north : HostRecord
north = host_record machine setup (open_station ∷ [])

-- the third attempt connects
abbrev attempts : Attempts
attempts = record { connects = λ n. n == 2; after = λ n p. p }

connect_with_retry_returns_example :
    connect_with_retry attempts 3 renamed_host
    ≡ some (attempted attempts 3 0 renamed_host, doubled_waits 0 2)
connect_with_retry_returns_example =
    connect_with_retry_returns attempts 2 renamed_host (λ j lt. ground arith) refl

two_waits : doubled_waits 0 6 ≡ 5000 ∷ 10000 ∷ 20000 ∷ 40000 ∷ 60000 ∷ 60000 ∷ []
unfolding doubled_waits
two_waits = refl

-- the maintenance begins at fifteen seconds
abbrev evening : Waking
evening = record { detect = λ t. leb 15000 t; late = λ t. 0 }

sleep_until_next_returns_example :
    (t : ℕ) × (sleep_until_next evening 60000 0 500
      ≡ some (t, differs (evening.detect t) (evening.detect 500)))
    × (t ≤ max 500 (0 + 60000 + 0))
    × ((leb (0 + 60000) t || differs (evening.detect t) (evening.detect 500)) ≡ true)
sleep_until_next_returns_example = sleep_until_next_returns evening 60000 0 500 0 (λ t. omega arith)

evening_differs : (v : ℕ) → 15000 ≤ v → differs (leb 15000 v) (leb 15000 500) ≡ true
unfolding differs
evening_differs v le = ground arith

woken_early : sleep_until_next evening 60000 0 500 ≡ some (20500, true)
unfolding sleep_until_next sleep_until awake differs
woken_early = refl

sleep_until_next_soon_example :
    (t : ℕ) × (sleep_until_next evening 60000 0 500
      ≡ some (t, differs (evening.detect t) (evening.detect 500)))
    × (t ≤ 15000 + maint_poll + 0)
sleep_until_next_soon_example =
    sleep_until_next_soon evening 60000 0 500 0 15000 (λ v. omega arith) evening_differs

-- a cycle that raises after the host's record, and a complete one
abbrev inputs : Inputs
inputs = record { stations = both; connecting = λ p. p; host = none; states = [] }

abbrev running : Loop
running = record { connected = true; cleared = []; publisher = renamed_host }

shut_out : contains "US0002" (opted_out both) ≡ true
unfolding contains opted_out is_publishable
shut_out = refl

not_wiped : member "US0002" [] ≡ false
unfolding member lookup
not_wiped = refl

raised_then_wiped_example :
    Sent
      (emptied "stations" "US0002" "health")
      (publishing inputs (all_raised ((1, inputs) ∷ []) running)).publisher.sent
raised_then_wiped_example =
    raised_then_wiped ((1, inputs) ∷ []) inputs running "US0002" refl refl not_wiped shut_out

-- ping prints the loss and the times, and ffprobe nothing
abbrev ping_lines : List String
ping_lines =
    "20 packets transmitted, 19 received, 5% packet loss, time 1ms"
    ∷ "rtt min/avg/max/mdev = 0.3/0.6/2.6/0.4 ms" ∷ []

abbrev read_number : String → Option ℤ
read_number t =
    if str_eq t "5"
    then some (pos 5000)
    else if str_eq t "0.6"
    then some (pos 600)
    else if str_eq t "2.6"
    then some (pos 2600)
    else none

probes-IsTold_example :
    IsTold (probe_keyframe (λ t. none) true (some "a.mkv") 30000 (some []))
    × (is_some (probe_network read_number (some "10.0.0.4") true (some ping_lines)).note
        ≡ not
            (is_some (probe_network read_number (some "10.0.0.4") true (some ping_lines)).loss_pct))
probes-IsTold_example =
    probes-IsTold (λ t. none) read_number true true (some "a.mkv") (some "10.0.0.4") 30000 (some [])
      (some ping_lines)

pings_read : probe_network read_number (some "10.0.0.4") true (some ping_lines) ≡ record {
  loss_pct = some (pos 5000);
  rtt_avg_ms = some (pos 600);
  rtt_max_ms = some (pos 2600);
  note = none;
}
unfolding probe_network note_unread read_lines read_line is_in infix_of starts_with codes read_stats
    stats_of after_equals_sign split_at is_space glue_char begins pieces read_loss is_gap has_suffix
    drop_last read_or
pings_read = refl
