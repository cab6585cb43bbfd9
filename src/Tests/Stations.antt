-- ===== src/Tests/Stations.antt =====
-- The checkout, the expected output and the whole record of a station, on concrete inputs.
use cc_rms_mqtt_monitor.Base.{
  ℕ, ◌-◌, ◌≤◌, ◌<◌, ◌≡◌, ◌⊎◌, ◌↔◌, refl, String, true, false, none, some, List, [], ◌∷◌, Memᴰ, any,
  pos, negsuc, arith, ltb_ℤ,
}
use cc_rms_mqtt_monitor.RmsMode.{Site}
use cc_rms_mqtt_monitor.Health.Metrics.{ff, frames}
use cc_rms_mqtt_monitor.Collect.Repo.{Git, Look, check_up_to_date, uptodate_ttl, same_signal}
use cc_rms_mqtt_monitor.Collect.Repo.Tick.{ClockIs}
use cc_rms_mqtt_monitor.Collect.Repo.Clock.{repo_after, taken, SeenBehind, behind_clock}
use cc_rms_mqtt_monitor.Collect.Repo.Cache.{answer_recent}
use cc_rms_mqtt_monitor.Collect.Mode.{output_by_sun, night_below, day_above}
use cc_rms_mqtt_monitor.Collect.Journal.{collect_journal_fatal, capture_unit}
use cc_rms_mqtt_monitor.Collect.Events.{CaptureEvents, no_scan, events_of, collect_capture_events}
use cc_rms_mqtt_monitor.Collect.Logs.{fatal_match, no_log}
use cc_rms_mqtt_monitor.Collect.Station.{Collected, collect_station}
use cc_rms_mqtt_monitor.Collect.Station.Crashes.{startup_crash_reported}
use cc_rms_mqtt_monitor.Collect.Station.Processing.{IsOpen, is_processing, processing_reported}
use cc_rms_mqtt_monitor.Tests.Logs.{crashes, events, day_log}

-- a checkout whose remote tip is another commit
abbrev git : Git
git = record {
  branch = some "master";
  head = some "aaa";
  upstream = λ b. some ("origin", b);
  branch_remote = λ b. none;
  remotes = "origin" ∷ [];
  url = λ r. none;
  has_head = λ r b. true;
  tip = λ r b. some "bbb";
}

abbrev look : ℕ → Look
look t = record { git = git; mono = t; now = t; signal = some 1 }

abbrev looks : List Look
looks = look 5000000 ∷ look 60000 ∷ []

behind_clock_example :
    (ClockIs "aaa" 60000 (repo_after looks).behind → SeenBehind "aaa" 60000 looks)
    × (SeenBehind "aaa" 60000 looks
        → (s : ℕ) × ClockIs "aaa" s (repo_after looks).behind × (s ≤ 60000))
behind_clock_example = behind_clock looks "aaa" 60000 ((omega arith, tt), (tt, tt))

answer_recent_example :
    (taken (look 90000) (look 60000 ∷ []) ≡ check_up_to_date git)
    ⊎ ((m : Look) × Memᴰ m (look 60000 ∷ [])
        × (taken (look 90000) (look 60000 ∷ []) ≡ check_up_to_date m.git)
        × (90000 - m.mono < uptodate_ttl)
        × (same_signal (some 1) m.signal ≡ true))
answer_recent_example = answer_recent (look 90000) (look 60000 ∷ [])

abbrev site : Site
site = record {
  has_location = true;
  continuous_capture = true;
  switch_camera_modes = true;
  save_frames = true;
  capture_wait = none;
}

at_night : output_by_sun site (negsuc 15000) ≡ ff
unfolding output_by_sun night_below day_above ltb_ℤ
at_night = refl

at_day : output_by_sun site (pos 20000) ≡ frames
unfolding output_by_sun night_below day_above ltb_ℤ
at_day = refl

-- a station whose capture died at startup, with a processing run left open in its log
abbrev unfinished : CaptureEvents
unfinished = record (events_of 0 [] no_scan) { processing_active = true }

abbrev tail : String → List String
tail unit = "Traceback" ∷ []

abbrev pub crashed : Collected
crashed = record {
  process = record {
    capture_alive = false;
    process_count = 0;
    capture_instances = 0;
    main_pid = none;
    capture_age_s = none;
    total_rss_mb = 0;
    total_pss_mb = none;
    capture_cpu_pct = none;
  };
  capture = record {
    captured_dir = none;
    fits_count = 0;
    newest_fits_age_s = none;
    capture_session_age_s = none;
  };
  platepar = record { res = none; config_fov_mismatch = none; platepar_fov_h = none };
  config = record { width = 0; height = 0; fov_w = 0 };
  frames = (none, none);
  timelapse = record {
    timelapse_mp4_present = none;
    timelapse_session_age_s = none;
    newest_timelapse_age_s = none;
    frames_data_age_s = none;
  };
  stream = (none, none);
  detection = record {
    ftpdetect_present = false;
    calstars_present = false;
    detection_output_age_s = none;
  };
  data_dir_readable = some true;
  logs = record { scanned = no_log; buffer_fill_max_recent = none; buffer_fill_max_leadup = none };
  journal = (collect_journal_fatal crashes tail "US0001" (some "au1.service") []).0;
  events = some unfinished;
  summary = none;
  upload = (0, none);
  disk = (none, none);
  mode = record {
    site = site;
    solar_elevation_deg = none;
    expected_output = none;
    mode_source = none;
  };
  capture_wait_seconds = none;
  media_backend = none;
}

unit_known : (capture_unit "US0001" (some "au1.service") []).0 ≡ some "au1.service"
unfolding capture_unit
unit_known = refl

crash_shown : any (fatal_match crashes) (tail "au1.service") ≡ true
unfolding any fatal_match
crash_shown = refl

startup_crash_reported_example : 0 < (collect_station "US0001" crashed).metrics.fatal_error_count
startup_crash_reported_example =
    startup_crash_reported crashes tail "US0001" "au1.service" (some "au1.service") [] crashed
      unit_known crash_shown refl

-- the same with a live capture and the log of a day that ends in a processing run
abbrev processing : Collected
processing = record crashed {
  process = record crashed.process { capture_alive = true };
  events = (collect_capture_events events 2000 "US0001" (some day_log) []).0;
}

processing_reported_example :
    let r = collect_station "US0001" processing in
    (is_processing r.events ≡ true)
    ↔ ((r.metrics.capture_alive ≡ true) × IsOpen events (some day_log))
processing_reported_example =
    processing_reported events 2000 "US0001" (some day_log) [] processing refl
