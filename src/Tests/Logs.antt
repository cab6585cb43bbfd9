-- ===== src/Tests/Logs.antt =====
-- The scans of a station's log and journal, on concrete lines.
use cc_rms_mqtt_monitor.Base.{
  ℕ, ◌+◌, ◌-◌, ◌<◌, ◌≡◌, ◌↔◌, refl, String, true, false, none, some, List, [], ◌∷◌, ◌++◌, str_eq,
  push_all, arith, if◌then◌else◌,
}
use cc_rms_mqtt_monitor.Collect.Events as Events
use cc_rms_mqtt_monitor.Collect.Events.{
  CaptureEvents, no_scan, scan_log, events_of, collect_capture_events,
}
use cc_rms_mqtt_monitor.Collect.Events.Sessions.{disconnects_add_up}
use cc_rms_mqtt_monitor.Collect.Events.Episodes.{Unclosed, processing_iff}
use cc_rms_mqtt_monitor.Collect.Buffer.{Point, recent_fills, peak, max_leadup}
use cc_rms_mqtt_monitor.Collect.Buffer.Leadup.{leadup_before}
use cc_rms_mqtt_monitor.Collect.Logs.{Patterns, collect_logs}
use cc_rms_mqtt_monitor.Collect.Logs.Silence.{IsSilent, old_log-IsSilent}

-- a line is the name of the pattern that it matches
abbrev pub events : Events.Patterns
events = record {
  transition = λ line. str_eq line "transition";
  proc_end = λ line. str_eq line "end";
  proc_reprocess_start = λ line. if str_eq line "reprocess" then some "/data/night" else none;
  proc_dawn_start = λ line. str_eq line "dawn";
  data_dir = λ line. none;
  backend_gst = λ line. str_eq line "gst";
  backend_cv2 = λ line. str_eq line "cv2";
  stream_drop = λ line. str_eq line "disconnect";
  wd_restart = λ line. none;
  meteor = λ line. if str_eq line "meteor" then some 2 else none;
  star_overflow = λ line. if str_eq line "overflow" then some 800 else none;
  stars = λ line. if str_eq line "stars" then some 0 else none;
  log_ts = λ line. some 1000;
}

abbrev pub day_log : List String
day_log = "disconnect" ∷ "meteor" ∷ "dawn" ∷ []

abbrev night_log : List String
night_log = "meteor" ∷ "disconnect" ∷ "overflow" ∷ "stars" ∷ []

disconnects_add_up_example :
    (e : CaptureEvents) × ((collect_capture_events events 2000 "US0001" (some night_log) []).0
      ≡ some e)
    × (e.disconnects_scheduled_session + e.disconnects_unplanned_session ≡ e.disconnects_session)
disconnects_add_up_example = disconnects_add_up events 2000 "US0001" night_log []

processing_iff_example :
    ((events_of 2000 []
        (scan_log events (day_log ++ "transition" ∷ night_log) no_scan)).processing_active
      ≡ true)
    ↔ Unclosed events (day_log ++ "transition" ∷ night_log)
processing_iff_example = processing_iff events 2000 [] (day_log ++ "transition" ∷ night_log)

abbrev point : ℕ → ℕ → Point
point fill session = record { ts = some 5000; fill = fill; session = session }

leadup_before_example :
    (max_leadup (point 10000 0 ∷ point 90000 0 ∷ point 20000 4 ∷ point 99000 4 ∷ [])
      ≡ peak (recent_fills (some 5000) (point 90000 0 ∷ push_all (point 10000 0 ∷ []) [])))
    × (max_leadup (point 90000 4 ∷ []) ≡ none)
leadup_before_example =
    leadup_before (point 10000 0 ∷ []) (point 90000 0) (point 20000 4) (point 99000 4 ∷ [])
      (point 90000 4 ∷ []) (omega arith) (omega arith, tt) tt

-- every line is a fatal one, at a second of the clock
abbrev pub crashes : Patterns
crashes = record {
  fatal = λ line. true;
  loader = λ line. false;
  info_level = λ line. false;
  warning = λ line. true;
  ignore = λ line. false;
  translation = λ line. none;
  watchdog = λ line. true;
  buffer = λ line. none;
  pipeline_build = λ line. true;
  decoder_err = λ line. false;
  daytime_mode = λ line. none;
  traceback = λ line. false;
  ts_prefix = λ line. true;
  log_ts = λ line. some 1000;
  strip = λ line. line;
  redact = λ line. line;
  clip = λ line. line;
}

stale : (t : ℕ) → some 1000 ≡ some t → t < 9000 - 5000
stale t e = ground (arith, e)

old_log-IsSilent_example :
    IsSilent (collect_logs crashes 9000 (some 5000) (some ("a" ∷ "b" ∷ []))).scanned
old_log-IsSilent_example =
    old_log-IsSilent crashes 9000 5000 1000 "a" ("b" ∷ []) (omega arith) refl (stale, (stale, tt))
