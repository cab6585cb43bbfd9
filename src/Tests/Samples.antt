-- ===== src/Tests/Samples.antt =====
-- A station with the defaults of `Station` in cc_mqtt_monitor/discovery.py.
use cc_rms_mqtt_monitor.Base.{String, true, false, none, pos}
use cc_rms_mqtt_monitor.Discovery.{Station}

abbrev pub plain_station : String → Station
plain_station sid = record {
  station_id = sid;
  config_path = "/st/.config";
  data_dir = "/home/rms/RMS_data";
  captured_dir = "CapturedFiles";
  archived_dir = "ArchivedFiles";
  log_dir = "logs";
  upload_queue_file = "FILES_TO_UPLOAD.inf";
  frame_dir = "FramesFiles";
  video_dir = "VideoFiles";
  raw_video_save = false;
  raw_video_duration = pos 30000;
  platepar_name = "platepar_cmn2010.cal";
  camera_group_name = none;
  continuous_capture = false;
  switch_camera_modes = false;
  save_frames = true;
  timelapse_generate_from_frames = true;
  weblog_enable = true;
  latitude = pos 0;
  longitude = pos 0;
  elevation = pos 0;
  capture_wait_seconds = pos 0;
  protocol = "tcp";
  media_backend = "gst";
  config_width = pos 0;
  config_height = pos 0;
  config_fov_w = pos 0;
  config_fov_h = pos 0;
  device_url = none;
  camera_host = none;
}
