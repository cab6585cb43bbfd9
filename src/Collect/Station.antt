-- ===== src/Collect/Station.antt =====
-- `collect_station` of cc_mqtt_monitor/collect.py: what the collectors give together, in the form
-- that cc_mqtt_monitor/health.py reads.
pub mod Crashes
pub mod Processing
use mathlib.Core.Option
use cc_rms_mqtt_monitor.Base.{
  ℕ, String, Bool, true, false, not, ◌&&◌, Option, none, some, ltb, if◌then◌else◌, or_else, is_some,
  some_and, ℤ, pos, pos_part,
}
use cc_rms_mqtt_monitor.Health.Metrics.{StationMetrics, FrameMode, Summary, Output, no_metrics}
use cc_rms_mqtt_monitor.Collect.Process.{ProcessMetrics}
use cc_rms_mqtt_monitor.Collect.Files.{CaptureFiles, DetectionFiles}
use cc_rms_mqtt_monitor.Collect.Outputs.{Timelapse}
use cc_rms_mqtt_monitor.Collect.Platepar.{Platepar, PlateConfig, Resolution}
use cc_rms_mqtt_monitor.Collect.Logs.{LogMetrics}
use cc_rms_mqtt_monitor.Collect.Journal.{Fatal}
use cc_rms_mqtt_monitor.Collect.Events.{CaptureEvents}
use cc_rms_mqtt_monitor.Collect.Mode.{Mode}

-- what each collector returns
pub record Collected : Type 0 where
  pub process : ProcessMetrics
  pub capture : CaptureFiles
  pub platepar : Platepar
  pub config : PlateConfig
  pub frames : Option ℤ × Option FrameMode
  pub timelapse : Timelapse
  pub stream : Option ℕ × Option ℤ
  pub detection : DetectionFiles
  pub data_dir_readable : Option Bool
  pub logs : LogMetrics
  pub journal : Option Fatal
  pub events : Option CaptureEvents
  pub summary : Option Summary
  pub upload : ℕ × Option ℤ
  pub disk : Option ℕ × Option ℕ
  pub mode : Mode
  pub capture_wait_seconds : Option ℤ
  pub media_backend : Option String

unfoldable pub log_fatal : LogMetrics → Fatal
log_fatal l = record {
  fatal_error_count = l.scanned.fatal_error_count;
  last_error = l.scanned.last_error;
}

-- the journal is asked where the log shows no fatal error
unfoldable pub with_journal : Fatal → Option Fatal → Fatal
with_journal log none = log
with_journal log (some f) = if ltb 0 log.fatal_error_count then log else f

-- no live process means that a processing run is over
unfoldable pub settle : Bool → CaptureEvents → CaptureEvents
settle alive e =
    if e.processing_active && not alive
    then record e {
      processing_active = false;
      processing_kind = none;
      processing_dir = none;
      processing_age_s = none;
    }
    else e

unfoldable pub backend_of : Option CaptureEvents → Option String
backend_of none = none
backend_of (some e) = e.capture_backend

unfoldable pub width_of : Option Resolution → ℕ
width_of none = 0
width_of (some r) = pos_part r.x_res

unfoldable pub height_of : Option Resolution → ℕ
height_of none = 0
height_of (some r) = pos_part r.y_res

unfoldable pub res_mismatch : Option Resolution → Bool
res_mismatch none = false
res_mismatch (some r) = or_else r.mismatch false

-- the metrics that health reads, and the events of the session
pub record StationRecord : Type 0 where
  pub metrics : StationMetrics
  pub events : Option CaptureEvents

unfoldable pub collect_station : String → Collected → StationRecord
collect_station station c =
    let fatal = with_journal (log_fatal c.logs) c.journal in
    let s = c.logs.scanned in
    record {
      metrics = record (no_metrics station) {
        capture_instances = some c.process.capture_instances;
        total_pss_mb = Option.map pos c.process.total_pss_mb;
        total_rss_mb = some (pos c.process.total_rss_mb);
        capture_alive = c.process.capture_alive;
        data_dir_readable = c.data_dir_readable;
        newest_fits_age_s = c.capture.newest_fits_age_s;
        newest_frame_age_s = c.frames.0;
        capture_session_age_s = c.capture.capture_session_age_s;
        capture_age_s = c.process.capture_age_s;
        capture_wait_seconds = c.capture_wait_seconds;
        expected_output = c.mode.expected_output;
        frame_mode = c.frames.1;
        platepar_res_mismatch = res_mismatch c.platepar.res;
        platepar_x_res = width_of c.platepar.res;
        platepar_y_res = height_of c.platepar.res;
        config_width = c.config.width;
        config_height = c.config.height;
        media_backend = c.media_backend;
        capture_backend = backend_of c.events;
        config_fov_mismatch = or_else c.platepar.config_fov_mismatch false;
        config_fov_w = pos c.config.fov_w;
        platepar_fov_h = or_else c.platepar.platepar_fov_h (pos 0);
        fits_count = c.capture.fits_count;
        ftpdetect_present = c.detection.ftpdetect_present;
        calstars_present = c.detection.calstars_present;
        timelapse_session_age_s = c.timelapse.timelapse_session_age_s;
        timelapse_mp4_present = c.timelapse.timelapse_mp4_present;
        newest_timelapse_age_s = c.timelapse.newest_timelapse_age_s;
        frames_data_age_s = c.timelapse.frames_data_age_s;
        fatal_error_count = fatal.fatal_error_count;
        last_error = fatal.last_error;
        warning_count = s.warning_count;
        last_warning = s.last_warning;
        last_watchdog_event = s.last_watchdog_event;
        disk_free_gb = Option.map pos c.disk.0;
        upload_queue_len = c.upload.0;
        summary = c.summary;
        dropped_frames_10min = or_else s.dropped_frames_10min 0;
        buffer_fill_max_leadup = Option.map pos c.logs.buffer_fill_max_leadup;
        pipeline_reconnects = s.pipeline_reconnects;
        decoder_errors = s.decoder_errors;
        capture_cpu_pct = Option.map pos c.process.capture_cpu_pct;
        stream_mbps = Option.map pos c.stream.0;
      };
      events = Option.map (settle c.process.capture_alive) c.events;
    }
