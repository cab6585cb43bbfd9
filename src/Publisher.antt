-- ===== src/Publisher.antt =====
-- cc_mqtt_monitor/publisher.py: what is handed to the MQTT client, and when.
-- The client is not modelled: whether its link is up, whether an endpoint accepts a connection and
-- when a PUBACK arrives are inputs. `sent` lists the messages handed to it, the last one first.
pub mod Offline
pub mod Rename
pub mod Endpoints
pub mod Recorded
pub mod Quietly
use Prim.Native.String
use cc_rms_mqtt_monitor.Base.{
  ℕ, zero, suc, ◌-◌, String, Bool, true, false, not, ◌&&◌, Option, none, some, List, [], ◌∷◌, ltb,
  if◌then◌else◌, str_eq,
}
use cc_rms_mqtt_monitor.Config.{BrokerConfig, Fallback}
use cc_rms_mqtt_monitor.StateFiles.{Cell, read_first, write_first}
use cc_rms_mqtt_monitor.Health.State.{State}
use cc_rms_mqtt_monitor.Health.Metrics.{StationMetrics, HostMetrics}

-- `word` is a plain payload, empty for a tombstone; the others stand for their JSON text
pub data Payload : Type 0 where
  word : String → Payload
  station_record : State StationMetrics → Payload
  host_record : State HostMetrics → Payload

abbrev pub tombstone : Payload
tombstone = word ""

pub record Message : Type 0 where
  pub topic : String
  pub payload : Payload
  pub retain : Bool

pub record Publisher : Type 0 where
  pub topic_prefix : String
  pub host_uid : String
  -- `host_uid` when the publisher was built, in its status topic
  pub status_uid : String
  pub announce : Bool
  pub broker : BrokerConfig
  pub winning_broker : Option BrokerConfig
  -- `is_connected()`
  pub connected : Bool
  pub last_publish_ok : Option ℕ
  pub dropped_offline : ℕ
  -- the messages that `flush` waits for
  pub pending : List Message
  pub sent : List Message
  -- the files of `clear_renamed_host`
  pub host_name_files : List (Cell String)

-- `"%s/%s/%s" % (prefix, name, leaf)`
unfoldable pub topic_for : String → String → String → String
topic_for prefix name leaf =
    String.◌++◌ prefix (String.◌++◌ "/" (String.◌++◌ name (String.◌++◌ "/" leaf)))

abbrev pub host_status_topic : Publisher → String
host_status_topic p = topic_for p.topic_prefix p.status_uid "status"

abbrev pub state_topic : Publisher → String → String
state_topic p station_id = topic_for p.topic_prefix station_id "health"

abbrev pub host_state_topic : Publisher → String
host_state_topic p = topic_for p.topic_prefix p.host_uid "health"

-- a message that goes to the client with no test of the link
unfoldable pub send : Message → Publisher → Publisher
send m p = record p { sent = m ∷ p.sent }

-- `_publish`; the Boolean says whether there is an `info`
unfoldable pub publish : String → Payload → Bool → Publisher → Publisher × Bool
unfolding send
publish t payload retain p =
    let m : Message = record { topic = t; payload = payload; retain = retain } in
    if not p.connected
    then (record p { dropped_offline = suc p.dropped_offline }, false)
    else (record (send m p) { pending = m ∷ p.pending }, true)

-- `flush`: errors of single messages are passed over
unfoldable pub flush : Publisher → Publisher
flush p = record p { pending = [] }

unfoldable pub publish_state : String → State StationMetrics → Publisher → Publisher
publish_state station_id s p = (publish (state_topic p station_id) (station_record s) true p).0

unfoldable pub publish_host_state : State HostMetrics → Publisher → Publisher
publish_host_state s p = (publish (host_state_topic p) (host_record s) true p).0

unfoldable pub publish_test : String → State StationMetrics → Publisher → Publisher
unfolding flush
publish_test station_id s p =
    flush (publish (state_topic p station_id) (station_record s) false p).0

unfoldable pub clear_station : String → Publisher → Publisher × Bool
unfolding flush
clear_station station_id p =
    let (p', sent) = publish (state_topic p station_id) tombstone true p in (flush p', sent)

-- the loop of `go_silent` over the stations
unfoldable pub wipe_stations : List String → Publisher → Publisher
wipe_stations [] p = p
wipe_stations (sid ∷ sids) p = wipe_stations sids (publish (state_topic p sid) tombstone true p).0

-- `loop_stop` and `disconnect` of the client
unfoldable pub close_client : Publisher → Publisher
close_client p = record p { connected = false }

unfoldable pub go_silent : List String → Publisher → Publisher
unfolding flush close_client
go_silent station_ids p =
    let p1 = (publish (host_status_topic p) tombstone true p).0 in
    let p2 = (publish (host_state_topic p1) tombstone true p1).0 in
    close_client (flush (wipe_stations station_ids p2))

unfoldable pub disconnect : Publisher → Publisher
unfolding flush close_client
disconnect p =
    let p1 = flush p in
    let p2 =
      if p1.announce
      then flush (publish (host_status_topic p1) (word "offline") true p1).0
      else p1 in
    close_client p2

-- `_on_connect` with its return code
unfoldable pub on_connect : ℕ → ℕ → Publisher → Publisher
unfolding send
on_connect rc now p = elim rc [
  | zero ↦
      let p' = record p {
        connected = true;
        last_publish_ok = elim p.last_publish_ok [ none ↦ some now | some t ↦ some t ];
      } in
      if p.announce
      then send (record { topic = host_status_topic p; payload = word "online"; retain = true }) p'
      else p'
  | suc n ↦ p
]

unfoldable pub on_disconnect : Publisher → Publisher
on_disconnect p = record p { connected = false }

-- a PUBACK
unfoldable pub on_publish : ℕ → Publisher → Publisher
on_publish now p = record p { last_publish_ok = some now }

unfoldable pub seconds_since_publish : ℕ → Publisher → Option ℕ
seconds_since_publish now p = elim p.last_publish_ok [ none ↦ none | some t ↦ some (now - t) ]

-- `_publish_watchdog` of cc_mqtt_monitor/monitor.py: whether it exits
unfoldable pub watchdog_exits : ℕ → ℕ → Publisher → Bool
unfolding seconds_since_publish
watchdog_exits stale_after now p = elim (seconds_since_publish now p) [
  | none ↦ false
  | some age ↦ p.connected && ltb stale_after age
]

-- `prev` is the first name that is not empty
unfoldable pub previous_name : Publisher → Option String
previous_name p = read_first (λ n. not (str_eq n "")) p.host_name_files

-- the two tombstones of a name that is no longer used
unfoldable pub clear_name : String → Publisher → Publisher
unfolding send
clear_name prev p =
    send
      (record {
        topic = topic_for p.topic_prefix prev "status";
        payload = tombstone;
        retain = true;
      })
      (send
        (record {
          topic = topic_for p.topic_prefix prev "health";
          payload = tombstone;
          retain = true;
        })
        p)

unfoldable pub record_name : Publisher → Publisher
record_name p = record p { host_name_files = (write_first p.host_uid p.host_name_files).0 }

unfoldable pub renamed : Option String → Publisher → Publisher
renamed none p = record_name p
renamed (some prev) p = if str_eq prev p.host_uid then p else record_name (clear_name prev p)

unfoldable pub clear_renamed_host : Publisher → Publisher
unfolding renamed record_name
clear_renamed_host p = renamed (previous_name p) p
