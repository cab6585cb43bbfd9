-- ===== src/Config/Reload.antt =====
-- `Config.__post_init__`, `load_config` and `reload_config` of cc_mqtt_monitor/config.py.
-- `System` is what they ask of the system: the environment, the hostname, `os.path.expanduser`, and
-- the answer of `_instance_suffix`. A file is what PyYAML reads from it, none where that raises.
use cc_rms_mqtt_monitor.Base.{
  ℕ, String, Option, none, some, List, [], ◌∷◌, str_eq, String-discrete, if◌then◌else◌, or_else,
}
use cc_rms_mqtt_monitor.Config.{
  BrokerConfig, default_broker, default_thresholds, Config, default_config,
}
use cc_rms_mqtt_monitor.Config.Settings.{
  BrokerSetting, ThresholdSetting, Setting, set_broker, set_threshold, set_config, coerce,
}
use Prim.Native.String
use native.Mathlib.Decide.{ℕ_discrete}
use mathlib.Core.Logic.{ite}

pub record System : Type 0 where
  pub hostname : String
  pub instance_suffix : String
  pub expanduser : String → String
  pub cc_mqtt_broker : Option String
  -- `int(...)` of the variable; none where it is not set or empty
  pub cc_mqtt_port : Option ℕ
  pub cc_mqtt_username : Option String
  pub cc_mqtt_password : Option String

pub record File : Type 0 where
  pub broker : List BrokerSetting
  pub thresholds : List ThresholdSetting
  pub settings : List Setting

-- `"%s-%s" % (name, suffix)`
abbrev pub uid : String → String → String
uid name suffix = String.◌++◌ name (String.◌++◌ "-" suffix)

-- `self.host_name` or, where that is none or empty, the hostname
abbrev pub host_name_or : String → Option String → String
host_name_or hostname none = hostname
host_name_or hostname (some n) = if str_eq n "" then hostname else n

unfoldable pub post_init : System → Config → Config
post_init sys c =
    let name = host_name_or sys.hostname c.host_name in
    record c {
      host_name = some name;
      host_uid = some (uid name sys.instance_suffix);
      stations_dir = sys.expanduser c.stations_dir;
      rms_dir = sys.expanduser c.rms_dir;
    }

unfoldable pub override_broker : System → BrokerConfig → BrokerConfig
override_broker sys b = record b {
  host = or_else sys.cc_mqtt_broker b.host;
  port = elim sys.cc_mqtt_port [ none ↦ b.port | some p ↦ some p ];
  username = elim sys.cc_mqtt_username [ none ↦ b.username | some u ↦ some u ];
  password = elim sys.cc_mqtt_password [ none ↦ b.password | some p ↦ some p ];
}

-- `cfg.__post_init__` runs in the constructor and once more at the end.
unfoldable pub load_config : System → Option File → Option Config
unfolding post_init override_broker
load_config sys none = none
load_config sys (some file) =
    let broker = coerce set_broker default_broker file.broker in
    let thresholds = coerce set_threshold default_thresholds file.thresholds in
    let built =
      post_init sys (record default_config { broker = broker; thresholds = thresholds }) in
    let cfg = coerce set_config built file.settings in
    some (post_init sys (record cfg { broker = override_broker sys cfg.broker }))

pub BrokerConfig-discrete : Discrete BrokerConfig
BrokerConfig-discrete = hlevel (ℕ_discrete, String-discrete)

pub host_name-discrete : Discrete (Option String)
host_name-discrete = hlevel String-discrete

-- `[f for f in _RELOAD_PINNED if getattr(fresh, f) != getattr(current, f)]`
unfoldable pub changed_fields : Config → Config → List String
changed_fields fresh current =
    let rest =
      ite (String-discrete fresh.topic_prefix current.topic_prefix) [] ("topic_prefix" ∷ []) in
    let rest =
      ite (host_name-discrete fresh.host_name current.host_name) rest ("host_name" ∷ rest) in
    ite (BrokerConfig-discrete fresh.broker current.broker) rest ("broker" ∷ rest)

-- The file is read again; none for the list stands for a file that could not be read.
unfoldable pub reload_config : System → Config → Option File → Config × Option (List String)
unfolding changed_fields
reload_config sys current file = elim (load_config sys file) [
  | none ↦ (current, none)
  | some fresh ↦ (
    record fresh {
      broker = current.broker;
      host_name = current.host_name;
      topic_prefix = current.topic_prefix;
    },
    some (changed_fields fresh current),
  )
]
