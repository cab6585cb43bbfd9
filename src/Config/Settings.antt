-- ===== src/Config/Settings.antt =====
-- What a configuration file sets: one constructor for each attribute that `_coerce` can set, and
-- its `setattr`. A key that names no attribute is `unknown` and changes nothing.
use cc_rms_mqtt_monitor.Base.{ℕ, String, Bool, Option, List, [], ◌∷◌, ℤ}
use cc_rms_mqtt_monitor.Config.{Fallback, BrokerConfig, Value, Thresholds, Config}

pub data BrokerSetting : Type 0 where
  host client_id_prefix transport ws_path : String → BrokerSetting
  port : Option ℕ → BrokerSetting
  username password : Option String → BrokerSetting
  tls auto_fallback : Bool → BrokerSetting
  keepalive : ℕ → BrokerSetting
  fallbacks : Option (List Fallback) → BrokerSetting
  unknown : String → BrokerSetting

unfoldable pub set_broker : BrokerConfig → BrokerSetting → BrokerConfig
set_broker c (BrokerSetting.host v) = record c { host = v }
set_broker c (BrokerSetting.port v) = record c { port = v }
set_broker c (BrokerSetting.username v) = record c { username = v }
set_broker c (BrokerSetting.password v) = record c { password = v }
set_broker c (BrokerSetting.tls v) = record c { tls = v }
set_broker c (BrokerSetting.keepalive v) = record c { keepalive = v }
set_broker c (BrokerSetting.client_id_prefix v) = record c { client_id_prefix = v }
set_broker c (BrokerSetting.transport v) = record c { transport = v }
set_broker c (BrokerSetting.ws_path v) = record c { ws_path = v }
set_broker c (BrokerSetting.auto_fallback v) = record c { auto_fallback = v }
set_broker c (BrokerSetting.fallbacks v) = record c { fallbacks = v }
set_broker c (BrokerSetting.unknown k) = c

pub data ThresholdSetting : Type 0 where
  output_fresh_error_s capture_restart_grace_s capture_active_window_s detection_grace_s
        timelapse_grace_s timelapse_max_age_s disk_free_warn_gb disk_free_error_gb
        clock_error_warn_ms :
      ℤ → ThresholdSetting
  dropped_frame_rate_warn_pct udp_rcvbuf_errors_per_min_warn mem_psi_full_avg10_warn
        mem_psi_full_avg60_error oom_recent_s :
      ℤ → ThresholdSetting
  unclean_shutdown_recent_s buffer_fill_spike_pct : ℤ → ThresholdSetting
  nic_rx_errors_per_min_warn ip_reasm_fails_per_min_warn ping_loss_warn_pct : ℤ → ThresholdSetting
  upload_queue_warn log_warning_warn dropped_frames_warn dropped_frames_catastrophic :
      ℕ → ThresholdSetting
  decoder_errors_warn pipeline_reconnects_warn : ℕ → ThresholdSetting
  probe_min_interval_s probe_max_interval_s camera_unreachable_grace_s : ℕ → ThresholdSetting
  nic_link_speed_min_mbps : Value → ThresholdSetting
  unknown : String → ThresholdSetting

unfoldable pub set_threshold : Thresholds → ThresholdSetting → Thresholds
set_threshold c (ThresholdSetting.output_fresh_error_s v) = record c { output_fresh_error_s = v }
set_threshold c (ThresholdSetting.capture_restart_grace_s v) = record c {
  capture_restart_grace_s = v;
}
set_threshold c (ThresholdSetting.capture_active_window_s v) = record c {
  capture_active_window_s = v;
}
set_threshold c (ThresholdSetting.detection_grace_s v) = record c { detection_grace_s = v }
set_threshold c (ThresholdSetting.timelapse_grace_s v) = record c { timelapse_grace_s = v }
set_threshold c (ThresholdSetting.timelapse_max_age_s v) = record c { timelapse_max_age_s = v }
set_threshold c (ThresholdSetting.disk_free_warn_gb v) = record c { disk_free_warn_gb = v }
set_threshold c (ThresholdSetting.disk_free_error_gb v) = record c { disk_free_error_gb = v }
set_threshold c (ThresholdSetting.upload_queue_warn v) = record c { upload_queue_warn = v }
set_threshold c (ThresholdSetting.clock_error_warn_ms v) = record c { clock_error_warn_ms = v }
set_threshold c (ThresholdSetting.log_warning_warn v) = record c { log_warning_warn = v }
set_threshold c (ThresholdSetting.dropped_frames_warn v) = record c { dropped_frames_warn = v }
set_threshold c (ThresholdSetting.dropped_frame_rate_warn_pct v) = record c {
  dropped_frame_rate_warn_pct = v;
}
set_threshold c (ThresholdSetting.dropped_frames_catastrophic v) = record c {
  dropped_frames_catastrophic = v;
}
set_threshold c (ThresholdSetting.udp_rcvbuf_errors_per_min_warn v) = record c {
  udp_rcvbuf_errors_per_min_warn = v;
}
set_threshold c (ThresholdSetting.mem_psi_full_avg10_warn v) = record c {
  mem_psi_full_avg10_warn = v;
}
set_threshold c (ThresholdSetting.mem_psi_full_avg60_error v) = record c {
  mem_psi_full_avg60_error = v;
}
set_threshold c (ThresholdSetting.oom_recent_s v) = record c { oom_recent_s = v }
set_threshold c (ThresholdSetting.unclean_shutdown_recent_s v) = record c {
  unclean_shutdown_recent_s = v;
}
set_threshold c (ThresholdSetting.buffer_fill_spike_pct v) = record c { buffer_fill_spike_pct = v }
set_threshold c (ThresholdSetting.nic_rx_errors_per_min_warn v) = record c {
  nic_rx_errors_per_min_warn = v;
}
set_threshold c (ThresholdSetting.ip_reasm_fails_per_min_warn v) = record c {
  ip_reasm_fails_per_min_warn = v;
}
set_threshold c (ThresholdSetting.nic_link_speed_min_mbps v) = record c {
  nic_link_speed_min_mbps = v;
}
set_threshold c (ThresholdSetting.decoder_errors_warn v) = record c { decoder_errors_warn = v }
set_threshold c (ThresholdSetting.pipeline_reconnects_warn v) = record c {
  pipeline_reconnects_warn = v;
}
set_threshold c (ThresholdSetting.ping_loss_warn_pct v) = record c { ping_loss_warn_pct = v }
set_threshold c (ThresholdSetting.probe_min_interval_s v) = record c { probe_min_interval_s = v }
set_threshold c (ThresholdSetting.probe_max_interval_s v) = record c { probe_max_interval_s = v }
set_threshold c (ThresholdSetting.camera_unreachable_grace_s v) = record c {
  camera_unreachable_grace_s = v;
}
set_threshold c (ThresholdSetting.unknown k) = c

pub data Setting : Type 0 where
  stations_dir rms_dir topic_prefix : String → Setting
  interval_seconds log_tail_lines : ℕ → Setting
  log_window_s boot_grace_s maintenance_file_max_age_s : ℕ → Setting
  maintenance_file host_name host_uid group : Option String → Setting
  disabled_checks log_warning_ignore : List String → Setting
  enable_adaptive_probe : Bool → Setting
  unknown : String → Setting

unfoldable pub set_config : Config → Setting → Config
set_config c (Setting.stations_dir v) = record c { stations_dir = v }
set_config c (Setting.rms_dir v) = record c { rms_dir = v }
set_config c (Setting.topic_prefix v) = record c { topic_prefix = v }
set_config c (Setting.interval_seconds v) = record c { interval_seconds = v }
set_config c (Setting.log_tail_lines v) = record c { log_tail_lines = v }
set_config c (Setting.log_window_s v) = record c { log_window_s = v }
set_config c (Setting.boot_grace_s v) = record c { boot_grace_s = v }
set_config c (Setting.maintenance_file_max_age_s v) = record c { maintenance_file_max_age_s = v }
set_config c (Setting.maintenance_file v) = record c { maintenance_file = v }
set_config c (Setting.host_name v) = record c { host_name = v }
set_config c (Setting.host_uid v) = record c { host_uid = v }
set_config c (Setting.group v) = record c { group = v }
set_config c (Setting.disabled_checks v) = record c { disabled_checks = v }
set_config c (Setting.enable_adaptive_probe v) = record c { enable_adaptive_probe = v }
set_config c (Setting.log_warning_ignore v) = record c { log_warning_ignore = v }
set_config c (Setting.unknown k) = c

-- applies a mapping of overrides, in its order
unfoldable pub coerce {ℓ κ} : {A : Type ℓ} {S : Type κ} → (A → S → A) → A → List S → A
coerce set obj [] = obj
coerce set obj (s ∷ rest) = coerce set (set obj s) rest
