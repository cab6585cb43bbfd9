-- ===== src/Health/Metrics.antt =====
-- The metrics that cc_mqtt_monitor/health.py reads: an absent key or None is none; a key that is
-- only tested for truth is a Bool, a count that is only tested or compared reads None as 0.
use cc_rms_mqtt_monitor.Base.{
  ℕ, String, Bool, false, Option, none, some, [], Dict, ℤ, float, ltb_ℤ, leb_ℤ, if◌then◌else◌, Text,
}
use cc_rms_mqtt_monitor.Config.{Value}

-- the values of `expected_output`
pub data Output : Type 0 where
  ff frames idle transition : Output

pub data FrameMode : Type 0 where
  night day : FrameMode

-- the labels CAUSE_…
pub data DropCause : Type 0 where
  backpressure udp_buffer nic ip_frag link_loss camera_bw uncertain : DropCause

unfoldable pub label : DropCause → String
label backpressure = "cpu/io back-pressure"
label udp_buffer = "network: kernel UDP buffer"
label nic = "network: NIC/wire"
label ip_frag = "network: IP fragmentation"
label link_loss = "network: link packet loss"
label camera_bw = "camera/link bandwidth"
label uncertain = "uncertain"

pub data Confidence : Type 0 where
  high medium low : Confidence

-- `drop_cause`, `drop_confidence`, `drop_detail`
pub record Attribution : Type 0 where
  pub cause : DropCause
  pub confidence : Confidence
  pub detail : Text

-- the keys of the night summary that are read
pub record Summary : Type 0 where
  pub clock_synchronized : Value
  pub clock_error_uncertainty_ms : Value
  pub dropped_frame_rate : Value

pub record StationMetrics : Type 0 where
  pub station_id : String
  pub camera_standby : Bool
  pub camera_ping_ok : Option Bool
  -- milliseconds of the monitor's clock
  pub camera_unreachable_s : Option ℕ
  pub capture_instances : Option ℕ
  pub total_pss_mb : Option ℤ
  pub total_rss_mb : Option ℤ
  pub capture_alive : Bool
  pub data_dir_readable : Option Bool
  pub newest_fits_age_s : Option ℤ
  pub newest_frame_age_s : Option ℤ
  pub capture_session_age_s : Option ℤ
  pub capture_age_s : Option ℤ
  pub capture_wait_seconds : Option ℤ
  pub expected_output : Option Output
  pub frame_mode : Option FrameMode
  pub platepar_res_mismatch : Bool
  pub platepar_x_res : ℕ
  pub platepar_y_res : ℕ
  pub config_width : ℕ
  pub config_height : ℕ
  pub media_backend : Option String
  pub capture_backend : Option String
  pub config_fov_mismatch : Bool
  pub config_fov_w : ℤ
  pub platepar_fov_h : ℤ
  pub fits_count : ℕ
  pub ftpdetect_present : Bool
  pub calstars_present : Bool
  pub timelapse_session_age_s : Option ℤ
  pub timelapse_mp4_present : Option Bool
  pub newest_timelapse_age_s : Option ℤ
  pub frames_data_age_s : Option ℤ
  pub fatal_error_count : ℕ
  pub last_error : Option String
  pub warning_count : ℕ
  pub last_warning : Option String
  pub last_watchdog_event : Option String
  pub disk_free_gb : Option ℤ
  pub upload_queue_len : ℕ
  pub summary : Option Summary
  pub dropped_frames_10min : ℕ
  pub buffer_fill_max_leadup : Option ℤ
  pub pipeline_reconnects : ℕ
  pub decoder_errors : ℕ
  pub capture_cpu_pct : Option ℤ
  pub stream_mbps : Option ℤ
  pub probe_ping_loss_pct : Option ℤ
  pub probe_keyframe_peak_kb : Option ℤ
  pub probe_stream_mbps : Option ℤ
  -- outside, whether the key is there; inside, its value
  pub probe_ping_note : Option (Option String)
  pub drop : Option Attribution

-- one interface of `nic_link`
pub record Link : Type 0 where
  pub speed_mbps : Option ℤ
  pub duplex : Option String
  pub expected_mbps : Option ℤ
  pub partner_autoneg : Option Bool

pub record HostMetrics : Type 0 where
  pub monitor_update_blocked : Option String
  pub last_shutdown : Option String
  pub last_shutdown_age_s : Option ℤ
  pub oom_kill_count : ℕ
  pub oom_last_age_s : Option ℤ
  pub uptime_s : Option ℤ
  pub capture_restart_age_s : Option ℤ
  pub last_oom_victim : Option String
  pub mem_psi_full_avg10 : Option ℤ
  pub mem_psi_full_avg60 : Option ℤ
  pub mem_available_mb : Option ℕ
  pub udp_rcvbuf_errors_per_min : Option ℤ
  pub udp_rcvbuf_errors : ℕ
  pub udp_rcvbuf_error_pct : Option ℤ
  pub nic_rx_errors_per_min : Option ℤ
  pub nic_rx_errors : ℕ
  pub ip_reasm_fails_per_min : Option ℤ
  pub cpu_busy_pct : Option ℤ
  pub cpu_iowait_pct : Option ℤ
  -- in the order of the interfaces' names
  pub nic_link : Dict Link
  pub disk_fs_readonly : Bool
  pub disk_error_count : ℕ
  pub last_disk_error : Option String

-- a metrics dict with no key but the station's id
abbrev pub no_metrics : String → StationMetrics
no_metrics sid = record {
  station_id = sid;
  camera_standby = false;
  camera_ping_ok = none;
  camera_unreachable_s = none;
  capture_instances = none;
  total_pss_mb = none;
  total_rss_mb = none;
  capture_alive = false;
  data_dir_readable = none;
  newest_fits_age_s = none;
  newest_frame_age_s = none;
  capture_session_age_s = none;
  capture_age_s = none;
  capture_wait_seconds = none;
  expected_output = none;
  frame_mode = none;
  platepar_res_mismatch = false;
  platepar_x_res = 0;
  platepar_y_res = 0;
  config_width = 0;
  config_height = 0;
  media_backend = none;
  capture_backend = none;
  config_fov_mismatch = false;
  config_fov_w = float 0;
  platepar_fov_h = float 0;
  fits_count = 0;
  ftpdetect_present = false;
  calstars_present = false;
  timelapse_session_age_s = none;
  timelapse_mp4_present = none;
  newest_timelapse_age_s = none;
  frames_data_age_s = none;
  fatal_error_count = 0;
  last_error = none;
  warning_count = 0;
  last_warning = none;
  last_watchdog_event = none;
  disk_free_gb = none;
  upload_queue_len = 0;
  summary = none;
  dropped_frames_10min = 0;
  buffer_fill_max_leadup = none;
  pipeline_reconnects = 0;
  decoder_errors = 0;
  capture_cpu_pct = none;
  stream_mbps = none;
  probe_ping_loss_pct = none;
  probe_keyframe_peak_kb = none;
  probe_stream_mbps = none;
  probe_ping_note = none;
  drop = none;
}

abbrev pub no_host_metrics : HostMetrics
no_host_metrics = record {
  monitor_update_blocked = none;
  last_shutdown = none;
  last_shutdown_age_s = none;
  oom_kill_count = 0;
  oom_last_age_s = none;
  uptime_s = none;
  capture_restart_age_s = none;
  last_oom_victim = none;
  mem_psi_full_avg10 = none;
  mem_psi_full_avg60 = none;
  mem_available_mb = none;
  udp_rcvbuf_errors_per_min = none;
  udp_rcvbuf_errors = 0;
  udp_rcvbuf_error_pct = none;
  nic_rx_errors_per_min = none;
  nic_rx_errors = 0;
  ip_reasm_fails_per_min = none;
  cpu_busy_pct = none;
  cpu_iowait_pct = none;
  nic_link = [];
  disk_fs_readonly = false;
  disk_error_count = 0;
  last_disk_error = none;
}

-- `_hot`: above the threshold, and there at all
unfoldable pub hot : Option ℤ → ℤ → Bool
hot none threshold = false
hot (some v) threshold = ltb_ℤ threshold v

-- `float(value)`; none where it raises TypeError or ValueError
unfoldable pub to_float : Value → Option ℤ
to_float Value.null = none
to_float (Value.boolean b) = some (if b then float 1 else float 0)
to_float (Value.number z) = some z
to_float (Value.numeral z) = some z
to_float (Value.word s) = none

-- `age is not None and age >= threshold`
unfoldable pub at_least : Option ℤ → ℤ → Bool
at_least none threshold = false
at_least (some v) threshold = leb_ℤ threshold v

-- `age is not None and age <= threshold`
unfoldable pub at_most : Option ℤ → ℤ → Bool
at_most none threshold = false
at_most (some v) threshold = leb_ℤ v threshold
