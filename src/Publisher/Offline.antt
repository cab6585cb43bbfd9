-- ===== src/Publisher/Offline.antt =====
-- What reaches the MQTT client while the link of the publisher is down, and while it is up.
use mathlib.Core.Path.{ap₂}
use cc_rms_mqtt_monitor.Base.{
  ℕ, suc, ◌+◌, ◌≡◌, refl, ◌∙◌, ap, String, Bool, true, false, List, [], ◌∷◌, arith,
}
use cc_rms_mqtt_monitor.Health.State.{State}
use cc_rms_mqtt_monitor.Health.Metrics.{StationMetrics, HostMetrics}
use cc_rms_mqtt_monitor.Publisher.{
  Message, Publisher, Payload, tombstone, publish, flush, publish_state, publish_host_state,
  publish_test, clear_station, wipe_stations, close_client, go_silent, state_topic,
  host_state_topic, host_status_topic, send, topic_for,
}

-- the calls of a monitoring cycle
pub data Call : Type 0 where
  station : String → State StationMetrics → Call
  host : State HostMetrics → Call
  test : String → State StationMetrics → Call
  clear : String → Call
  flushing : Call

unfoldable pub run_call : Call → Publisher → Publisher
run_call (station sid s) p = publish_state sid s p
run_call (host s) p = publish_host_state s p
run_call (test sid s) p = publish_test sid s p
run_call (clear sid) p = (clear_station sid p).0
run_call flushing p = flush p

unfoldable pub run_calls : List Call → Publisher → Publisher
run_calls [] p = p
run_calls (k ∷ ks) p = run_calls ks (run_call k p)

-- how many messages the calls try to publish
unfoldable pub attempts : List Call → ℕ
attempts [] = 0
attempts (flushing ∷ ks) = attempts ks
attempts (station sid s ∷ ks) = suc (attempts ks)
attempts (host s ∷ ks) = suc (attempts ks)
attempts (test sid s ∷ ks) = suc (attempts ks)
attempts (clear sid ∷ ks) = suc (attempts ks)

-- Down is the link, and this was handed to the client, and so much dropped.
abbrev pub Silent : List Message → ℕ → Publisher → Type 0
Silent sent dropped p = (p.connected ≡ false) × (p.sent ≡ sent) × (p.dropped_offline ≡ dropped)

publish-Silent :
    (t : String) (x : Payload) (retain : Bool) (s : List Message) (n : ℕ) (p : Publisher)
    → Silent s n p
    → Silent s (suc n) (publish t x retain p).0
unfolding publish
publish-Silent t x retain s n p (down, e, d) = rw down (refl, e, ap suc d)

shift :
    (s : List Message) (m n : ℕ) (p : Publisher) → Silent s (m + suc n) p → Silent s (suc m + n) p
shift s m n p (down, e, d) = (down, e, omega arith)

calls-Silent :
    (ks : List Call) (s : List Message) (n : ℕ) (p : Publisher)
    → Silent s n p
    → Silent s (attempts ks + n) (run_calls ks p)
unfolding run_calls run_call attempts publish_state publish_host_state publish_test clear_station
    flush
calls-Silent [] s n p (down, e, d) = (down, e, omega arith)
calls-Silent (station sid x ∷ ks) s n p h =
    let q = run_call (station sid x) p in
    shift s (attempts ks) n (run_calls ks q)
      (calls-Silent ks s (suc n) q (publish-Silent _ _ _ s n p h))
calls-Silent (host x ∷ ks) s n p h =
    let q = run_call (host x) p in
    shift s (attempts ks) n (run_calls ks q)
      (calls-Silent ks s (suc n) q (publish-Silent _ _ _ s n p h))
calls-Silent (test sid x ∷ ks) s n p h =
    let q = run_call (test sid x) p in
    shift s (attempts ks) n (run_calls ks q)
      (calls-Silent ks s (suc n) q (publish-Silent _ _ _ s n p h))
calls-Silent (clear sid ∷ ks) s n p h =
    let q = run_call (clear sid) p in
    shift s (attempts ks) n (run_calls ks q)
      (calls-Silent ks s (suc n) q (publish-Silent _ _ _ s n p h))
calls-Silent (flushing ∷ ks) s n p h = calls-Silent ks s n (flush p) h

-- While the link is down, no sequence of calls of the monitoring cycles hands a message to the
-- client; each message that was to be published is dropped and counted.
pub offline_drops :
    (ks : List Call) (p : Publisher)
    → p.connected ≡ false
    → ((run_calls ks p).sent ≡ p.sent)
      × ((run_calls ks p).dropped_offline ≡ attempts ks + p.dropped_offline)
offline_drops ks p down =
    let (still, sent, dropped) = calls-Silent ks p.sent p.dropped_offline p (down, refl, refl) in
    (sent, dropped)

-- the empty retained message for a name and a leaf
abbrev pub emptied : String → String → String → Message
emptied pre name leaf = record {
  topic = topic_for pre name leaf;
  payload = tombstone;
  retain = true;
}

-- the tombstones of the stations on top of what was sent before
abbrev pub station_tombstones : String → List String → List Message → List Message
station_tombstones pre [] sent = sent
station_tombstones pre (sid ∷ sids) sent =
    station_tombstones pre sids (emptied pre sid "health" ∷ sent)

-- Up is the link, and this was handed to the client under this prefix.
abbrev Up : String → List Message → Publisher → Type 0
Up pre sent p = (p.connected ≡ true) × (p.topic_prefix ≡ pre) × (p.sent ≡ sent)

publish-Up :
    (pre name leaf : String) (sent : List Message) (p : Publisher)
    → Up pre sent p
    → Up pre
        (emptied pre name leaf ∷ sent)
        (publish (topic_for p.topic_prefix name leaf) tombstone true p).0
unfolding publish send
publish-Up pre name leaf sent p (up, e, s) =
    rw up (refl, e, ap₂ (λ q l. emptied q name leaf ∷ l) e s)

wipe-Up :
    (sids : List String) (pre : String) (sent : List Message) (p : Publisher)
    → Up pre sent p
    → Up pre (station_tombstones pre sids sent) (wipe_stations sids p)
unfolding wipe_stations
wipe-Up [] pre sent p h = h
wipe-Up (sid ∷ sids) pre sent p h =
    wipe-Up sids pre (emptied pre sid "health" ∷ sent)
      (publish (state_topic p sid) tombstone true p).0 (publish-Up pre sid "health" sent p h)

wipe-Silent :
    (sids : List String) (sent : List Message) (p : Publisher)
    → (n : ℕ) → Silent sent n p
    → (wipe_stations sids p).sent ≡ sent
unfolding wipe_stations
wipe-Silent [] sent p n (down, e, d) = e
wipe-Silent (sid ∷ sids) sent p n h =
    wipe-Silent sids sent (publish (state_topic p sid) tombstone true p).0 (suc n)
      (publish-Silent _ _ _ sent n p h)

host_uid-publish :
    (t : String) (x : Payload) (retain : Bool) (p : Publisher)
    → (publish t x retain p).0.host_uid ≡ p.host_uid
unfolding publish send
host_uid-publish t x retain p = ground arith

-- With the link up, a host that opts out sends an empty retained message for its status, its
-- record and the record of each of the stations, and is disconnected with nothing pending.
pub go_silent-wipes :
    (sids : List String) (p : Publisher)
    → p.connected ≡ true
    → let p' = go_silent sids p in
      (p'.sent
        ≡ station_tombstones p.topic_prefix sids (
            emptied p.topic_prefix p.host_uid "health"
            ∷ emptied p.topic_prefix p.status_uid "status"
            ∷ p.sent))
      × (p'.connected ≡ false)
      × (p'.pending ≡ [])
unfolding go_silent flush close_client
go_silent-wipes sids p up =
    let p1 = (publish (host_status_topic p) tombstone true p).0 in
    let p2 = (publish (host_state_topic p1) tombstone true p1).0 in
    let pre = p.topic_prefix in
    let one = publish-Up pre p.status_uid "status" p.sent p (up, refl, refl) in
    let two =
      publish-Up pre p1.host_uid "health" (emptied pre p.status_uid "status" ∷ p.sent) p1 one in
    let same = host_uid-publish (host_status_topic p) tombstone true p in
    let (up', same', wiped) = wipe-Up sids pre _ p2 two in
    (
      wiped
          ∙ ap
              (λ u. station_tombstones p.topic_prefix sids (
                emptied p.topic_prefix u "health"
                ∷ emptied p.topic_prefix p.status_uid "status"
                ∷ p.sent))
              same,
      refl,
      refl,
    )

-- With the link down, a host that opts out sends no tombstone at all, and is disconnected: what it
-- published stays retained.
pub go_silent-loses :
    (sids : List String) (p : Publisher)
    → p.connected ≡ false
    → ((go_silent sids p).sent ≡ p.sent) × ((go_silent sids p).connected ≡ false)
unfolding go_silent flush close_client
go_silent-loses sids p down =
    let n = p.dropped_offline in
    let p1 = (publish (host_status_topic p) tombstone true p).0 in
    let p2 = (publish (host_state_topic p1) tombstone true p1).0 in
    let one = publish-Silent _ _ _ p.sent n p (down, refl, refl) in
    (wipe-Silent sids p.sent p2 (suc (suc n)) (publish-Silent _ _ _ p.sent (suc n) p1 one), refl)
