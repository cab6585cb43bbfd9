-- ===== src/Cli/Unpublish.antt =====
-- What a broker keeps after `--unpublish` of cc_mqtt_monitor/__main__.py.
use mathlib.Core.Path.{ap₂}
use cc_rms_mqtt_monitor.Base.{
  ◌≡◌, refl, ◌∙◌, ap, String, true, false, ◌&&◌, Option, none, some, List, [], ◌∷◌, map, any,
  if◌then◌else◌, contains, str_eq, eq_refl, or_else, arith, Bool-cases, inl, inr,
}
use cc_rms_mqtt_monitor.Config.{Config}
use cc_rms_mqtt_monitor.StateFiles.{Cell}
use cc_rms_mqtt_monitor.Publisher.{Message, Publisher, Payload, tombstone, topic_for, go_silent}
use cc_rms_mqtt_monitor.Publisher.Offline.{emptied, station_tombstones, go_silent-wipes}
use cc_rms_mqtt_monitor.Publisher.Quietly.{Mute, says}
use cc_rms_mqtt_monitor.Publisher.Endpoints.{Network, connect}
use cc_rms_mqtt_monitor.Publisher.Endpoints.Quietly.{connect-Mute}
use cc_rms_mqtt_monitor.Cli.{new_publisher, connected_then, unpublish}

-- what the broker keeps under a topic once the messages have arrived, the last one first
unfoldable pub retained : String → List Message → Option Payload
retained t [] = none
retained t (m ∷ ms) =
    let rest = retained t ms in if m.retain && str_eq m.topic t then some m.payload else rest

abbrev pub health_topics : String → List String → List String
health_topics prefix = map (λ sid. topic_for prefix sid "health")

-- a message list in which a topic is wiped, and stays so under tombstones
wiped_under :
    (t pre : String) (sids : List String) (sent : List Message)
    → retained t sent ≡ some tombstone
    → retained t (station_tombstones pre sids sent) ≡ some tombstone
unfolding retained
wiped_under t pre [] sent h = h
wiped_under t pre (sid ∷ sids) sent h =
    wiped_under t pre sids (emptied pre sid "health" ∷ sent) (ground (arith, h))

wiped_station :
    (t pre : String) (sids : List String) (sent : List Message)
    → contains t (health_topics pre sids) ≡ true
    → retained t (station_tombstones pre sids sent) ≡ some tombstone
unfolding retained contains
wiped_station t pre [] sent h = cc h
wiped_station t pre (sid ∷ sids) sent h =
    elim (Bool-cases (str_eq (topic_for pre sid "health") t)) [
      | inl same ↦ wiped_under t pre sids (emptied pre sid "health" ∷ sent) (ground (arith, same))
      | inr other ↦
          wiped_station t pre sids (emptied pre sid "health" ∷ sent) (ground (arith, other, h))
    ]

says-station_tombstones :
    (pre : String) (sids : List String) (sent : List Message)
    → any says sent ≡ false
    → any says (station_tombstones pre sids sent) ≡ false
unfolding any says
says-station_tombstones pre [] sent h = h
says-station_tombstones pre (sid ∷ sids) sent h =
    says-station_tombstones pre sids (emptied pre sid "health" ∷ sent)
      (ground (arith, eq_refl "", h))

-- the topics of a host and its stations
abbrev pub host_topics : String → String → List String → List String
host_topics prefix uid sids =
    topic_for prefix uid "status" ∷ topic_for prefix uid "health" ∷ health_topics prefix sids

-- what opting out adds to the messages before it
abbrev silenced : String → String → List String → List Message → List Message
silenced prefix uid sids sent =
    station_tombstones prefix sids
      (emptied prefix uid "health" ∷ emptied prefix uid "status" ∷ sent)

wiped_topic :
    (t prefix uid : String) (sids : List String) (sent : List Message)
    → contains t (host_topics prefix uid sids) ≡ true
    → retained t (silenced prefix uid sids sent) ≡ some tombstone
unfolding contains retained
wiped_topic t prefix uid sids sent h =
    let base = emptied prefix uid "health" ∷ emptied prefix uid "status" ∷ sent in
    elim (Bool-cases (str_eq (topic_for prefix uid "health") t)) [
      | inl health ↦ wiped_under t prefix sids base (ground (arith, health))
      | inr no_health ↦ elim (Bool-cases (str_eq (topic_for prefix uid "status") t)) [
        | inl status ↦ wiped_under t prefix sids base (ground (arith, status))
        | inr no_status ↦ wiped_station t prefix sids base (ground (arith, no_health, no_status, h))
      ]
    ]

says-silenced :
    (prefix uid : String) (sids : List String) (sent : List Message)
    → any says sent ≡ false
    → any says (silenced prefix uid sids sent) ≡ false
unfolding any says
says-silenced prefix uid sids sent h =
    says-station_tombstones prefix sids _ (ground (arith, eq_refl "", h))

abbrev pub uid_of : Config → String
uid_of c = or_else c.host_uid ""

pub new-Mute :
    (c : Config) (files : List (Cell String))
    → Mute c.topic_prefix (uid_of c) (uid_of c) (new_publisher c false files)
unfolding new_publisher any
new-Mute c files = record {
  unannounced = refl;
  tombstones = refl;
  same_prefix = refl;
  same_uid = refl;
  same_status = refl;
}

-- the publisher of the run once it has connected
abbrev pub opened_quietly : Config → List (Cell String) → Network → Publisher
opened_quietly c files net = (connect net (new_publisher c false files)).0

go_silent-opened_quietly :
    (c : Config) (files : List (Cell String)) (net : Network) (sids : List String)
    → (opened_quietly c files net).connected ≡ true
    → ((go_silent sids (opened_quietly c files net)).sent
        ≡ silenced c.topic_prefix (uid_of c) sids (opened_quietly c files net).sent)
      × ((go_silent sids (opened_quietly c files net)).connected ≡ false)
go_silent-opened_quietly c files net sids up =
    let q = opened_quietly c files net in
    let h = connect-Mute net (new_publisher c false files) (new-Mute c files) in
    let (sent, shut, idle) = go_silent-wipes sids q up in
    (
      sent
          ∙ ap₂ (λ pre rest. station_tombstones pre sids rest) h.same_prefix
              (ap₂
                (λ (pre : String) (uids : String × String).
                  emptied pre uids.0 "health" ∷ emptied pre uids.1 "status" ∷ q.sent)
                h.same_prefix (ap₂ (λ u v. (u, v)) h.same_uid h.same_status)),
      shut,
    )

-- Where the run connects and its link is up, under the topic of the status, of the host and of each station that
-- is discovered the broker keeps an empty message afterwards; only such messages were handed over,
-- and the publisher is disconnected.
pub unpublish_clears :
    (c : Config) (files : List (Cell String)) (net : Network) (sids : List String) (t : String)
    → let (p, returned) = unpublish sids net (new_publisher c false files) in
      returned ≡ true
      → (opened_quietly c files net).connected ≡ true
      → contains t (host_topics c.topic_prefix (uid_of c) sids) ≡ true
      → (retained t p.sent ≡ some tombstone) × (any says p.sent ≡ false) × (p.connected ≡ false)
unfolding unpublish connected_then
unpublish_clears c files net sids t found up known =
    let q = opened_quietly c files net in
    let h = connect-Mute net (new_publisher c false files) (new-Mute c files) in
    let (sent, shut) = go_silent-opened_quietly c files net sids up in
    rw found (
      ap (retained t) sent ∙ wiped_topic t c.topic_prefix (uid_of c) sids q.sent known,
      ap (any says) sent ∙ says-silenced c.topic_prefix (uid_of c) sids q.sent h.tombstones,
      shut,
    )
