-- ===== src/Lib.antt =====
-- cc_rms_mqtt_monitor: the agent that watches the meteor stations of a host and publishes their
-- health over MQTT, and what its decisions guarantee.
--
-- The program runs in cycles (cc_mqtt_monitor/monitor.py, `run_loop`). A cycle collects the metrics
-- of the host and of each station that consents, turns them into a verdict, and hands retained
-- records to an MQTT client. A station whose output is stalled and whose camera does not answer
-- goes into standby; one that drops frames without a cause on the host is probed, ever more
-- rarely. A marker file tells the next boot how this one ended. The configuration is read again
-- when its file changes.
--
-- Base        Boolean tests, signed integers, dictionaries, texts: shared by all parts.
-- Config      cc_mqtt_monitor/config.py: `BrokerConfig`, `Thresholds`, `Config`, `_coerce`,
--             `load_config`, `reload_config`, `_instance_suffix`. A file is the list of the
--             attributes that it sets.
-- Health      cc_mqtt_monitor/health.py: one definition for each check of `evaluate` and
--             `evaluate_host`, which thread the verdict (status and problems) as `_flagger` does;
--             `output_stalled`, `classify_drops`, `build_state`, `build_host_state`. Findings and
--             Reports hold the abstract verdict, a list of findings.
-- Diagnose    cc_mqtt_monitor/diagnose.py: `camera_reachable`, `should_escalate`,
--             `note_escalation` with `_ESCALATE` as explicit state. Probes: `probe_keyframe`,
--             `probe_network`.
-- StateFiles  the candidate files of the monitor's state: read the first that is usable, write the
--             first that can be written.
-- BootMarker  cc_mqtt_monitor/bootmarker.py: `start`, `heartbeat`, `stop`, `metrics` over a world
--             of marker files.
-- Maintenance cc_mqtt_monitor/maintenance.py: `detect`.
-- RmsMode     cc_mqtt_monitor/rmsmode.py: `expected_output`.
-- Monitor     cc_mqtt_monitor/monitor.py: `_track_unreachable` and what `gather` does for one
--             station, with `_UNREACHABLE`, `_STANDBY` and `_ESCALATE` as one tracker;
--             `_publishable`, `run_once` and the cycles of `run_loop`. Daemon: its rounds with
--             the reload, the cycles that raise and the watchdog. Slug, Records: `_slug`,
--             `decorate`, `gather_host`. Retry, Sleep: `_connect_with_retry`, `_sleep_until_next`.
--             Whole: the rounds put together, from the collectors to the messages. Forced:
--             `run_diagnose`, `make_test_state`, `make_udp_test_state`.
-- Collect     cc_mqtt_monitor/collect.py, what is measured of a station. Cmdline and Process:
--             `_process_config_path`, `collect_process` and its walk over the process table. Logs
--             and Buffer: `collect_logs`. Events and Disconnects: `collect_capture_events`,
--             `classify_disconnects`, `_disc_history`. Journal: `collect_journal_fatal`. Repo:
--             `rms_repo_status`. Files, Outputs, Segments, Platepar, Mode: the other collectors.
--             Station: `collect_station`, which gives Health its metrics.
-- OsLevel     cc_mqtt_monitor/oslevel.py, what is measured of the host. Counters: the files of
--             /proc. Rates: the differences of two samples. Routes: `iface_for_ip`. KernelLog:
--             `scan_oom`, `scan_disk_errors`. Ethtool, NicLink: `parse_ethtool`, `read_nic_link`.
-- Discovery   cc_mqtt_monitor/discovery.py: `_station_from_config` and what it reads,
--             `discover_stations`, the paths of `Station`.
-- Sanitize    cc_mqtt_monitor/sanitize.py: `redact`. Matching: what it uses of Python's `re`.
-- Publisher   cc_mqtt_monitor/publisher.py: the messages that are handed to the client, the guard
--             against queueing while offline, opting out, a renamed host, the endpoint that
--             `connect` uses; and the test of `_publish_watchdog`.
-- Cli         cc_mqtt_monitor/__main__.py: what the arguments ask for, and the runs of `--once`,
--             `--test` and `--unpublish`.
-- Tests       the theorems applied to concrete inputs.
--
-- Numbers. A float is an integer number of thousandths, rounding and infinities left out; a clock
-- is a natural number of milliseconds, and a difference of clocks stops at 0. A metric that the
-- collector may leave out is an option. A message is its format with its arguments, so two messages
-- are compared without printing numbers; the clock time in the text on an unclean shutdown stands
-- for the age that it is computed from. The loops run over lists, save the walk over the process
-- table, whose fuel is the number of its roots and of the entries of the table: a process is
-- pushed as a child once at most, so this is enough. The two loops of `_connect_with_retry` and
-- `_sleep_until_next` have fuel as well: the number of attempts, and the milliseconds up to the
-- deadline, since every sleep takes one at least. A regular expression is repeated at most as often
-- as there are characters left, each round taking one.
--
-- Inputs. What lies outside the source is an argument of the definitions: the MQTT client (whether
-- its link is up, when it acknowledges), the answers of pings and probes, the entries of /proc and
-- /sys, the lines of logs, of the kernel log and of the journal, what the regular expressions find
-- in a line, git, ethtool, the files with their times and which can be read and written, the
-- crossings and the elevation of the sun, what PyYAML, json and configparser read, the environment,
-- the clocks.
--
-- Not modelled: solar.py; the viewer; what the command line prints; of monitor.py the signal
-- handler and the calls of the marker in `run_loop`, which BootMarker has by itself; of collect.py
-- the reading of a log's tail, of a process's unit and of one process's counters, the caches of
-- units and of checkouts on disk, `collect_summary` and `rms_branch`; of oslevel.py the choice of
-- the kernel log's source, the age of a line, `collect_host` as a whole and `protect_from_oom`.
pub mod Base
pub mod Collect
pub mod OsLevel
pub mod Discovery
pub mod Sanitize
pub mod Config
pub mod Health
pub mod Diagnose
pub mod StateFiles
pub mod BootMarker
pub mod RmsMode
pub mod Maintenance
pub mod Monitor
pub mod Publisher
pub mod Cli
mod Tests
