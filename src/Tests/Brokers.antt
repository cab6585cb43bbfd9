-- ===== src/Tests/Brokers.antt =====
-- Publishing and configuration on concrete publishers and files.
use cc_rms_mqtt_monitor.Base.{
  String, ◌≡◌, ◌≢◌, refl, true, false, none, some, [], ◌∷◌, eq_iff, str_eq,
}
use cc_rms_mqtt_monitor.Config.{default_broker, default_config, Config}
use cc_rms_mqtt_monitor.Config.Settings.{Setting, set_config, coerce}
use cc_rms_mqtt_monitor.Config.Reload.{
  System, File, load_config, reload_config, uid, post_init, override_broker,
}
use cc_rms_mqtt_monitor.Config.Pinning.{reload-moves_host_uid}
use cc_rms_mqtt_monitor.StateFiles.{read_first}
use cc_rms_mqtt_monitor.Publisher.{Publisher, go_silent, previous_name}
use cc_rms_mqtt_monitor.Publisher.Offline.{go_silent-loses}

-- a publisher of a host that was called `raspberrypi-1`
abbrev pub renamed_host : Publisher
renamed_host = record {
  topic_prefix = "stations";
  host_uid = "meteor-1";
  status_uid = "meteor-1";
  announce = true;
  broker = default_broker;
  winning_broker = none;
  connected = true;
  last_publish_ok = some 0;
  dropped_offline = 0;
  pending = [];
  sent = [];
  host_name_files =
      record { content = none; writable = false }
      ∷ record { content = some "raspberrypi-1"; writable = true }
      ∷ [];
}

abbrev offline : Publisher
offline = record renamed_host { connected = false }

go_silent-loses_example :
    ((go_silent ("US0001" ∷ []) offline).sent ≡ [])
    × ((go_silent ("US0001" ∷ []) offline).connected ≡ false)
go_silent-loses_example = go_silent-loses ("US0001" ∷ []) offline refl

differ : (s t : String) → str_eq s t ≡ false → s ≢ t
differ s t h e = cc (h, (eq_iff s t).1 e)

was_raspberry : previous_name renamed_host ≡ some "raspberrypi-1"
unfolding previous_name read_first
was_raspberry = refl

abbrev pub system : System
system = record {
  hostname = "raspberrypi";
  instance_suffix = "1a2b";
  expanduser = λ s. s;
  cc_mqtt_broker = none;
  cc_mqtt_port = none;
  cc_mqtt_username = none;
  cc_mqtt_password = none;
}

-- a file that names the host
abbrev named : File
named = record { broker = []; thresholds = []; settings = Setting.host_name (some "meteor") ∷ [] }

abbrev running : Config
running = record default_config {
  host_name = some "raspberrypi";
  host_uid = some (uid "raspberrypi" "1a2b");
}

-- the configuration of the file
abbrev meteor : Config
meteor = record default_config { host_name = some "meteor"; host_uid = some (uid "meteor" "1a2b") }

named_loads : load_config system (some named) ≡ some meteor
unfolding load_config post_init override_broker coerce set_config
named_loads = refl

other_name : meteor.host_name ≢ running.host_name
other_name e = differ "meteor" "raspberrypi" refl (cc e)

reload-moves_host_uid_example :
    let c = (reload_config system running (some named)).0 in
    (c.host_name ≡ running.host_name) × (c.host_uid ≢ running.host_uid)
reload-moves_host_uid_example =
    reload-moves_host_uid system running named meteor ("raspberrypi", refl, refl) named_loads
      other_name
