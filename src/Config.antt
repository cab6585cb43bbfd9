-- ===== src/Config.antt =====
-- The configuration records of cc_mqtt_monitor/config.py, with their default values.
-- Durations that are compared with a clock of the monitor are in milliseconds, by `seconds`;
-- the other float and duration fields are integers of thousandths, by `float`.
pub mod Settings
pub mod Reload
pub mod Pinning
pub mod Identity
use cc_rms_mqtt_monitor.Base.{
  ℕ, ◌*◌, String, Bool, true, false, Option, none, some, List, [], ◌∷◌, ℤ, float,
}

abbrev pub seconds : ℕ → ℕ
seconds n = n * 1000

-- An entry of `fallbacks`: `f.get` reads an absent key as none.
pub record Fallback : Type 0 where
  pub transport : Option String
  pub port : Option ℕ
  pub tls : Option Bool
  pub ws_path : Option String

pub record BrokerConfig : Type 0 where
  pub host : String
  pub port : Option ℕ
  pub username : Option String
  pub password : Option String
  pub tls : Bool
  pub keepalive : ℕ
  pub client_id_prefix : String
  pub transport : String
  pub ws_path : String
  pub auto_fallback : Bool
  pub fallbacks : Option (List Fallback)

abbrev pub default_broker : BrokerConfig
default_broker = record {
  host = "mqtt.contrailcast.com";
  port = some 1883;
  username = none;
  password = none;
  tls = false;
  keepalive = 60;
  client_id_prefix = "cc-rms-monitor";
  transport = "tcp";
  ws_path = "/mqtt";
  auto_fallback = true;
  fallbacks = some (
      record {
        transport = some "websockets";
        port = some 443;
        tls = some true;
        ws_path = some "/mqtt";
      }
      ∷ record { transport = some "tcp"; port = some 8883; tls = some true; ws_path = none }
      ∷ []);
}

-- A value read from YAML or JSON where the program takes several types: a numeral is a text that
-- `float()` reads, a word any other text, in lower case and without blanks at its ends.
pub data Value : Type 0 where
  null : Value
  boolean : Bool → Value
  number numeral : ℤ → Value
  word : String → Value

pub record Thresholds : Type 0 where
  pub output_fresh_error_s : ℤ
  pub capture_restart_grace_s : ℤ
  pub capture_active_window_s : ℤ
  pub detection_grace_s : ℤ
  pub timelapse_grace_s : ℤ
  pub timelapse_max_age_s : ℤ
  pub disk_free_warn_gb : ℤ
  pub disk_free_error_gb : ℤ
  pub upload_queue_warn : ℕ
  pub clock_error_warn_ms : ℤ
  pub log_warning_warn : ℕ
  pub dropped_frames_warn : ℕ
  pub dropped_frame_rate_warn_pct : ℤ
  pub dropped_frames_catastrophic : ℕ
  pub udp_rcvbuf_errors_per_min_warn : ℤ
  pub mem_psi_full_avg10_warn : ℤ
  pub mem_psi_full_avg60_error : ℤ
  pub oom_recent_s : ℤ
  pub unclean_shutdown_recent_s : ℤ
  pub buffer_fill_spike_pct : ℤ
  pub nic_rx_errors_per_min_warn : ℤ
  pub ip_reasm_fails_per_min_warn : ℤ
  pub nic_link_speed_min_mbps : Value
  pub decoder_errors_warn : ℕ
  pub pipeline_reconnects_warn : ℕ
  pub ping_loss_warn_pct : ℤ
  pub probe_min_interval_s : ℕ
  pub probe_max_interval_s : ℕ
  pub camera_unreachable_grace_s : ℕ

abbrev pub default_thresholds : Thresholds
default_thresholds = record {
  output_fresh_error_s = float 300;
  capture_restart_grace_s = float 300;
  capture_active_window_s = float 3600;
  detection_grace_s = float 1800;
  timelapse_grace_s = float 3600;
  timelapse_max_age_s = float 108000;
  disk_free_warn_gb = float 20;
  disk_free_error_gb = float 5;
  upload_queue_warn = 10;
  clock_error_warn_ms = float 100;
  log_warning_warn = 1;
  dropped_frames_warn = 10;
  dropped_frame_rate_warn_pct = float 3;
  dropped_frames_catastrophic = 3000;
  udp_rcvbuf_errors_per_min_warn = float 0;
  mem_psi_full_avg10_warn = float 10;
  mem_psi_full_avg60_error = float 10;
  oom_recent_s = float 900;
  unclean_shutdown_recent_s = float 86400;
  buffer_fill_spike_pct = float 30;
  nic_rx_errors_per_min_warn = float 0;
  ip_reasm_fails_per_min_warn = float 0;
  nic_link_speed_min_mbps = Value.word "auto";
  decoder_errors_warn = 1;
  pipeline_reconnects_warn = 3;
  ping_loss_warn_pct = float 1;
  probe_min_interval_s = seconds 600;
  probe_max_interval_s = seconds 3600;
  camera_unreachable_grace_s = seconds 300;
}

pub record Config : Type 0 where
  pub broker : BrokerConfig
  pub thresholds : Thresholds
  pub stations_dir : String
  pub rms_dir : String
  pub topic_prefix : String
  pub interval_seconds : ℕ
  pub log_tail_lines : ℕ
  pub log_window_s : ℕ
  pub boot_grace_s : ℕ
  pub maintenance_file_max_age_s : ℕ
  pub maintenance_file : Option String
  -- none before `__post_init__` has run
  pub host_name : Option String
  pub host_uid : Option String
  pub group : Option String
  pub disabled_checks : List String
  pub enable_adaptive_probe : Bool
  pub log_warning_ignore : List String

-- the fields as the class declares them, before `__post_init__`
abbrev pub default_config : Config
default_config = record {
  broker = default_broker;
  thresholds = default_thresholds;
  stations_dir = "~/source/Stations";
  rms_dir = "~/source/RMS";
  topic_prefix = "stations";
  interval_seconds = seconds 60;
  log_tail_lines = 4000;
  log_window_s = seconds 7200;
  boot_grace_s = seconds 600;
  maintenance_file_max_age_s = seconds 900;
  maintenance_file = none;
  host_name = none;
  host_uid = none;
  group = none;
  disabled_checks = [];
  enable_adaptive_probe = true;
  log_warning_ignore = [];
}
