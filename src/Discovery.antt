-- ===== src/Discovery.antt =====
-- cc_mqtt_monitor/discovery.py: the stations of a host and their settings.
-- What configparser reads of a file, `float`, the home directory, which directories can be read and
-- which files exist are inputs. A float is in thousandths, NaN and infinity left out.
pub mod Places
pub mod Addresses
use cc_rms_mqtt_monitor.Base.{
  ℕ, ◌/◌, ◌+◌, String, Bool, true, false, not, ◌&&◌, ◌||◌, Option, none, some, List, [], ◌∷◌, ◌==◌,
  if◌then◌else◌, contains, str_eq, Dict, lookup, insert, ℤ, pos, negsuc, sub_ℕ, join_path, basename,
  rstrip_slash, has_char, strip, before, after_last, after_scheme, lower_text, or_else,
}

pub record World : Type 0 where
  -- the sections of a file with their items, none where configparser raises
  pub ini : String → Option (List (List (String × String)))
  pub float : String → Option ℤ
  pub expanduser : String → String
  pub abspath : String → String
  -- `os.path.isdir(d) and os.access(d, os.R_OK | os.X_OK)`
  pub is_open : String → Bool
  pub is_file : String → Bool
  -- `glob.glob`, sorted
  pub glob : String → List String

pub record Station : Type 0 where
  pub station_id : String
  pub config_path : String
  pub data_dir : String
  pub captured_dir : String
  pub archived_dir : String
  pub log_dir : String
  pub upload_queue_file : String
  pub frame_dir : String
  pub video_dir : String
  pub raw_video_save : Bool
  pub raw_video_duration : ℤ
  pub platepar_name : String
  pub camera_group_name : Option String
  pub continuous_capture : Bool
  pub switch_camera_modes : Bool
  pub save_frames : Bool
  pub timelapse_generate_from_frames : Bool
  pub weblog_enable : Bool
  pub latitude : ℤ
  pub longitude : ℤ
  pub elevation : ℤ
  pub capture_wait_seconds : ℤ
  pub protocol : String
  pub media_backend : String
  pub config_width : ℤ
  pub config_height : ℤ
  pub config_fov_w : ℤ
  pub config_fov_h : ℤ
  pub device_url : Option String
  pub camera_host : Option String

-- the items of one section, cut at a comment
unfoldable pub merge_items : List (String × String) → Dict String → Dict String
merge_items [] merged = merged
merge_items ((key, value) ∷ items) merged =
    merge_items items (insert key (strip (before b';' value)) merged)

unfoldable pub merge_sections : List (List (String × String)) → Dict String → Dict String
merge_sections [] merged = merged
merge_sections (items ∷ rest) merged = merge_sections rest (merge_items items merged)

unfoldable pub merge_ini : Option (List (List (String × String))) → Dict String
merge_ini none = []
merge_ini (some sections) = merge_sections sections []

unfoldable pub read_config : World → String → Dict String
read_config w path = merge_ini (w.ini path)

unfoldable pub as_bool : Option String → Bool → Bool
as_bool none default = default
as_bool (some value) default =
    contains (lower_text (strip value)) ("1" ∷ "true" ∷ "yes" ∷ "on" ∷ [])

unfoldable pub as_float : World → Option String → ℤ → ℤ
as_float w none default = default
as_float w (some value) default = or_else (w.float value) default

-- `int(x)`
unfoldable pub int_of : ℤ → ℤ
int_of (pos n) = pos (n / 1000)
int_of (negsuc n) = sub_ℕ 0 ((n + 1) / 1000)

-- `s or None`
unfoldable pub non_empty : String → Option String
non_empty s = if str_eq s "" then none else some s

-- `value or default`
unfoldable pub text_or : Option String → String → String
text_or none default = default
text_or (some s) default = if str_eq s "" then default else s

-- `d.get(a, d.get(b))`
unfoldable pub get_either : String → String → Dict String → Option String
get_either a b cfg = elim (lookup a cfg) [ none ↦ lookup b cfg | some v ↦ some v ]

-- the host part of what follows "://"
unfoldable pub host_part : String → String
host_part rest = strip (before b':' (after_last b'@' (before b'/' rest)))

unfoldable pub host_of : Option String → Option String
host_of none = none
host_of (some rest) = non_empty (host_part rest)

-- an empty text holds no "://"
unfoldable pub camera_host : Option String → Option String
camera_host none = none
camera_host (some url) = host_of (after_scheme url)

unfoldable pub readable_dir : World → String → Bool
readable_dir w d = not (str_eq d "") && w.is_open d

-- the loop over the alternatives
unfoldable pub fall_back : World → String → List String → String
fall_back w dir [] = dir
fall_back w dir (alt ∷ alts) =
    let rest = fall_back w dir alts in
    if not (str_eq alt dir) && readable_dir w alt then alt else rest

abbrev pub default_data_dir : String
default_data_dir = "~/RMS_data"

-- what is tried where the configured directory cannot be read
unfoldable pub alternatives : World → String → List String
alternatives w station_id =
    w.expanduser (join_path default_data_dir station_id) ∷ w.expanduser default_data_dir ∷ []

unfoldable pub choose_data_dir : World → String → String → String
choose_data_dir w station_id dir =
    if readable_dir w dir then dir else fall_back w dir (alternatives w station_id)

-- the part of a path up to its last "/"
unfoldable pub head_part : String → String
head_part String.[] = String.[]
head_part (String.◌∷◌ c s) =
    let rest = head_part s in if has_char b'/' (String.◌∷◌ c s) then String.◌∷◌ c rest else ""

-- `os.path.dirname`
unfoldable pub dirname : String → String
dirname path =
    let head = head_part path in if str_eq (rstrip_slash head) "" then head else rstrip_slash head

unfoldable pub group_name : String → Option String
group_name group = if str_eq (lower_text group) "none" then none else non_empty group

unfoldable pub station_from : World → String → Dict String → Station
station_from w path cfg =
    let station_id = text_or (lookup "stationID" cfg) (basename (dirname path)) in
    let device_url = non_empty (strip (text_or (lookup "device" cfg) "")) in
    record {
      station_id = station_id;
      config_path = w.abspath path;
      data_dir =
          choose_data_dir w station_id
            (w.expanduser (or_else (lookup "data_dir" cfg) default_data_dir));
      captured_dir = or_else (lookup "captured_dir" cfg) "CapturedFiles";
      archived_dir = or_else (lookup "archived_dir" cfg) "ArchivedFiles";
      log_dir = or_else (lookup "log_dir" cfg) "logs";
      upload_queue_file = or_else (lookup "upload_queue_file" cfg) "FILES_TO_UPLOAD.inf";
      frame_dir = or_else (lookup "frame_dir" cfg) "FramesFiles";
      video_dir = or_else (lookup "video_dir" cfg) "VideoFiles";
      raw_video_save = as_bool (lookup "raw_video_save" cfg) false;
      raw_video_duration = as_float w (lookup "raw_video_duration" cfg) (pos 30000);
      platepar_name = or_else (lookup "platepar_name" cfg) "platepar_cmn2010.cal";
      camera_group_name = group_name (strip (text_or (lookup "camera_group_name" cfg) ""));
      continuous_capture = as_bool (lookup "continuous_capture" cfg) false;
      switch_camera_modes = as_bool (lookup "switch_camera_modes" cfg) false;
      save_frames = as_bool (lookup "save_frames" cfg) true;
      timelapse_generate_from_frames = as_bool (lookup "timelapse_generate_from_frames" cfg) true;
      weblog_enable = as_bool (lookup "weblog_enable" cfg) true;
      latitude = as_float w (get_either "latitude" "lat" cfg) (pos 0);
      longitude = as_float w (get_either "longitude" "lon" cfg) (pos 0);
      elevation = as_float w (get_either "elevation" "elev" cfg) (pos 0);
      capture_wait_seconds = as_float w (lookup "capture_wait_seconds" cfg) (pos 0);
      protocol = lower_text (strip (text_or (lookup "protocol" cfg) "tcp"));
      media_backend = lower_text (strip (text_or (lookup "media_backend" cfg) "gst"));
      config_width = int_of (as_float w (lookup "width" cfg) (pos 0));
      config_height = int_of (as_float w (lookup "height" cfg) (pos 0));
      config_fov_w = as_float w (lookup "fov_w" cfg) (pos 0);
      config_fov_h = as_float w (lookup "fov_h" cfg) (pos 0);
      device_url = device_url;
      camera_host = camera_host device_url;
    }

unfoldable pub station_from_config : World → String → Station
station_from_config w path = station_from w path (read_config w path)

unfoldable pub stations_at : World → List String → List Station
stations_at w [] = []
stations_at w (path ∷ paths) = station_from_config w path ∷ stations_at w paths

-- the single station of a host without several
unfoldable pub single_station : World → Option String → List Station
single_station w none = []
single_station w (some rms_dir) =
    let single = join_path (w.expanduser rms_dir) ".config" in
    if not (str_eq rms_dir "") && w.is_file single then station_from_config w single ∷ [] else []

unfoldable pub discover_stations : World → String → Option String → List Station
discover_stations w stations_dir rms_dir =
    let pattern = join_path (join_path (w.expanduser stations_dir) "*") ".config" in
    elim (stations_at w (w.glob pattern)) [ [] ↦ single_station w rms_dir | s ∷ ss ↦ s ∷ ss ]

unfoldable pub is_zero : ℤ → Bool
is_zero (pos n) = n == 0
is_zero (negsuc n) = false

unfoldable pub has_location : Station → Bool
has_location s = not (is_zero s.latitude && is_zero s.longitude)

unfoldable pub captured_path : Station → String
captured_path s = join_path s.data_dir s.captured_dir

unfoldable pub frames_path : Station → String
frames_path s = join_path s.data_dir s.frame_dir

unfoldable pub video_path : Station → String
video_path s = join_path s.data_dir s.video_dir

unfoldable pub archived_path : Station → String
archived_path s = join_path s.data_dir s.archived_dir

unfoldable pub log_path : Station → String
log_path s = join_path s.data_dir s.log_dir

unfoldable pub upload_queue_path : Station → String
upload_queue_path s = join_path s.data_dir s.upload_queue_file

unfoldable pub platepar_path : Station → String
platepar_path s = join_path (dirname s.config_path) s.platepar_name
