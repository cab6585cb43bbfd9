-- ===== src/Tests/Found.antt =====
-- Discovery on a concrete host.
use cc_rms_mqtt_monitor.Base.{
  join_path, is_abs, starts_with, codes, ends_with_slash, append, lower_text, lookup, strip, insert,
  before, after_last, after_scheme, exchange, is_space, lstrip, rstrip, has_prefix, String, ◌≡◌,
  refl, Bool, false, Option, none, some, List, [], ◌∷◌, if◌then◌else◌, str_eq, has_char, contains,
}
use cc_rms_mqtt_monitor.Discovery.{
  World, Station, readable_dir, alternatives, choose_data_dir, camera_host, discover_stations,
  stations_at, station_from_config, station_from, text_or, as_bool, non_empty, read_config,
  merge_ini, merge_sections, merge_items, as_float, fall_back, group_name, host_of, host_part,
  int_of, single_station,
}
use cc_rms_mqtt_monitor.Discovery.Addresses.{Address, url_of, IsPlain, camera_host-url_of}

-- a host with one station, whose data belong to another user
abbrev home : String → String
home d =
    if str_eq d "~/RMS_data"
    then "/home/mon/RMS_data"
    else if str_eq d "~/RMS_data/US0001"
    then "/home/mon/RMS_data/US0001"
    else d

abbrev settings : List (List (String × String))
settings =
    (("stationID", "US0001 ; the id") ∷ ("weblog_enable", " False") ∷ [])
    ∷ (("data_dir", "/home/rms/RMS_data")
        ∷ ("device", "rtsp://u:pw@10.0.0.4:554/user=admin")
        ∷ ("protocol", "UDP")
        ∷ [])
    ∷ []

abbrev host : World
host = record {
  ini = λ path. if str_eq path "/st/US0001/.config" then some settings else none;
  float = λ t. none;
  expanduser = home;
  abspath = λ p. p;
  is_open = λ d. contains d ("/home/mon/RMS_data" ∷ []);
  is_file = λ p. false;
  glob = λ p. if str_eq p "/st/*/.config" then "/st/US0001/.config" ∷ [] else [];
}

ids : List Station → List (String × String × Option String × String × Bool)
ids [] = []
ids (s ∷ ss) = (s.station_id, s.data_dir, s.camera_host, s.protocol, s.weblog_enable) ∷ ids ss

found_stations :
    ids (discover_stations host "/st" none)
    ≡ ("US0001", "/home/mon/RMS_data", some "10.0.0.4", "udp", false) ∷ []
unfolding ids discover_stations stations_at join_path is_abs starts_with codes ends_with_slash
    append station_from_config station_from text_or choose_data_dir camera_host lower_text as_bool
    lookup readable_dir non_empty strip read_config merge_ini merge_sections merge_items insert
    before contains after_last after_scheme exchange is_space lstrip rstrip alternatives as_float
    fall_back group_name host_of host_part int_of single_station has_char has_prefix
found_stations = refl

address_read : camera_host (some "rtsp://u:pw@10.0.0.4:554/user=admin") ≡ some "10.0.0.4"
unfolding camera_host host_of after_scheme non_empty host_part strip before after_last has_char
    is_space lstrip rstrip
address_read = refl

-- a password with an "@", a port and a path
abbrev address : Address
address = record {
  scheme = "rtsp";
  login = some "u:p@w";
  host = "10.0.0.4";
  port = some "554";
  path = some "user=admin@x:1/0.sdp";
}

address-IsPlain : IsPlain address
unfolding has_char strip lstrip rstrip is_space
address-IsPlain = record {
  scheme_colon = refl;
  login_slash = refl;
  host_slash = refl;
  host_at = refl;
  host_colon = refl;
  port_slash = refl;
  port_at = refl;
  stripped = refl;
  host_there = refl;
}

address_spelled : url_of address ≡ "rtsp://u:p@w@10.0.0.4:554/user=admin@x:1/0.sdp"
unfolding append
address_spelled = refl

camera_host-url_of_example : camera_host (some (url_of address)) ≡ some "10.0.0.4"
camera_host-url_of_example = camera_host-url_of address address-IsPlain
