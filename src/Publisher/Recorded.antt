-- ===== src/Publisher/Recorded.antt =====
-- The stations whose records are handed to the client by the calls of cc_mqtt_monitor/publisher.py.
use cc_rms_mqtt_monitor.Base.{
  ℕ, ◌≡◌, refl, ◌∙◌, String, Bool, true, Option, none, some, List, [], ◌∷◌, if◌then◌else◌, arith,
}
use cc_rms_mqtt_monitor.Health.State.{State}
use cc_rms_mqtt_monitor.Health.Metrics.{StationMetrics, HostMetrics}
use cc_rms_mqtt_monitor.Publisher.{
  Message, Publisher, word, station_record, host_record, publish, send, flush, publish_state,
  publish_host_state, clear_station, wipe_stations, close_client, go_silent, on_connect, clear_name,
  record_name, renamed, previous_name, clear_renamed_host, state_topic, host_state_topic,
  host_status_topic, tombstone,
}

-- the stations of the records among the messages
unfoldable pub record_ids : List Message → List String
record_ids [] = []
record_ids (m ∷ ms) = elim m.payload [
  | word w ↦ record_ids ms
  | host_record h ↦ record_ids ms
  | station_record s ↦ s.metrics.station_id ∷ record_ids ms
]

abbrev pub ids : Publisher → List String
ids p = record_ids p.sent

ids-word :
    (t text : String) (retain : Bool) (p : Publisher)
    → ids (publish t (word text) retain p).0 ≡ ids p
unfolding publish send record_ids
ids-word t text retain p = ground arith

pub ids-publish_host_state :
    (h : State HostMetrics) (p : Publisher) → ids (publish_host_state h p) ≡ ids p
unfolding publish_host_state publish send record_ids
ids-publish_host_state h p = ground arith

-- With the link up the record of a station is handed over, and else nothing.
pub ids-publish_state :
    (sid : String) (s : State StationMetrics) (p : Publisher)
    → ids (publish_state sid s p) ≡ (if p.connected then s.metrics.station_id ∷ ids p else ids p)
unfolding publish_state publish send record_ids
ids-publish_state sid s p = ground arith

pub ids-clear_station : (sid : String) (p : Publisher) → ids (clear_station sid p).0 ≡ ids p
unfolding clear_station flush
ids-clear_station sid p = ids-word (state_topic p sid) "" true p

ids-wipe_stations : (sids : List String) (p : Publisher) → ids (wipe_stations sids p) ≡ ids p
unfolding wipe_stations
ids-wipe_stations [] p = refl
ids-wipe_stations (sid ∷ sids) p =
    ids-wipe_stations sids (publish (state_topic p sid) tombstone true p).0
    ∙ ids-word (state_topic p sid) "" true p

pub ids-go_silent : (sids : List String) (p : Publisher) → ids (go_silent sids p) ≡ ids p
unfolding go_silent flush close_client
ids-go_silent sids p =
    let p1 = (publish (host_status_topic p) tombstone true p).0 in
    let p2 = (publish (host_state_topic p1) tombstone true p1).0 in
    ids-wipe_stations sids p2
    ∙ ids-word (host_state_topic p1) "" true p1
    ∙ ids-word (host_status_topic p) "" true p

pub ids-on_connect : (rc now : ℕ) (p : Publisher) → ids (on_connect rc now p) ≡ ids p
unfolding on_connect send record_ids
ids-on_connect rc now p = ground arith

ids-renamed : (o : Option String) (p : Publisher) → ids (renamed o p) ≡ ids p
unfolding renamed record_name clear_name send record_ids
ids-renamed none p = refl
ids-renamed (some prev) p = ground arith

pub ids-clear_renamed_host : (p : Publisher) → ids (clear_renamed_host p) ≡ ids p
unfolding clear_renamed_host
ids-clear_renamed_host p = ids-renamed (previous_name p) p
