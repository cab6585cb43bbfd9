-- ===== src/Cli.antt =====
-- `main` of cc_mqtt_monitor/__main__.py: what its arguments ask for, and the runs that publish but do not stay.
-- What argparse reads is an input, and so are the stations that are discovered; what is printed is left out.
pub mod Unpublish
pub mod Alerts
use cc_rms_mqtt_monitor.Base.{
  ℕ, String, Bool, true, false, Option, none, some, List, [], ◌∷◌, ◌==◌, if◌then◌else◌, str_eq,
  or_else, ℤ,
}
use cc_rms_mqtt_monitor.Config.{Config}
use cc_rms_mqtt_monitor.StateFiles.{Cell}
use cc_rms_mqtt_monitor.Health.Metrics.{StationMetrics, HostMetrics}
use cc_rms_mqtt_monitor.Health.State.{State}
use cc_rms_mqtt_monitor.Publisher.{Publisher, publish_test, go_silent, disconnect}
use cc_rms_mqtt_monitor.Publisher.Endpoints.{Network, connect}
use cc_rms_mqtt_monitor.Monitor.Cycles.{run_once}

pub record Arguments : Type 0 where
  pub is_status : Bool
  -- the empty name for all stations
  pub asked_station : Option String
  pub is_viewer : Bool
  pub is_test : Bool
  -- the rate in thousandths
  pub udp_rate : Option ℤ
  pub is_unpublish : Bool
  pub is_once : Bool
  pub interval : Option ℕ

pub data Request : Type 0 where
  print_status : Request
  print_diagnosis : Option String → Request
  view : Request
  send_alert : Request
  send_udp_alert : ℤ → Request
  clear_records : Request
  publish_once : Request
  stay : Request

-- `args.diagnose or None`
unfoldable pub named_station : String → Option String
named_station name = if str_eq name "" then none else some name

-- the first that the arguments ask for
unfoldable pub request_of : Arguments → Request
request_of a = if a.is_status then print_status else elim a.asked_station [
  | some name ↦ print_diagnosis (named_station name)
  | none ↦ if a.is_viewer then view else if a.is_test then send_alert else elim a.udp_rate [
    | some rate ↦ send_udp_alert rate
    | none ↦ if a.is_unpublish then clear_records else if a.is_once then publish_once else stay
  ]
]

-- an interval of 0 overrides nothing
unfoldable pub with_interval : Option ℕ → Config → Config
with_interval none c = c
with_interval (some t) c = if t == 0 then c else record c { interval_seconds = t }

-- `Publisher(config, announce)`, with the files of `clear_renamed_host`
unfoldable pub new_publisher : Config → Bool → List (Cell String) → Publisher
new_publisher c announce files = record {
  topic_prefix = c.topic_prefix;
  host_uid = or_else c.host_uid "";
  status_uid = or_else c.host_uid "";
  announce = announce;
  broker = c.broker;
  winning_broker = none;
  connected = false;
  last_publish_ok = none;
  dropped_offline = 0;
  pending = [];
  sent = [];
  host_name_files = files;
}

-- `connect` and then the rest; the Boolean says that `connect` returned.
unfoldable pub connected_then : (Publisher → Publisher) → Network → Publisher → Publisher × Bool
connected_then rest net p = let (q, found) = connect net p in (if found then rest q else q, found)

-- `--unpublish`, with the stations that are discovered
unfoldable pub unpublish : List String → Network → Publisher → Publisher × Bool
unpublish sids net p = connected_then (go_silent sids) net p

-- `--test`, whose alert stands as the record of a station
unfoldable pub send_test : String → State StationMetrics → Network → Publisher → Publisher × Bool
send_test sid alert net p = connected_then (λ q. disconnect (publish_test sid alert q)) net p

-- `--once`
unfoldable pub run_single :
    Option (State HostMetrics)
    → List (State StationMetrics)
    → Network
    → Publisher
    → Publisher × Bool
run_single host states net p = connected_then (λ q. disconnect (run_once host states q)) net p
