-- ===== src/Monitor/Whole/Handed.antt =====
-- Whose records a cycle of cc_mqtt_monitor/monitor.py hands to the client, from the collectors on.
use mathlib.Core.Path.{ap₂}
use cc_rms_mqtt_monitor.Base.{
  ℕ, ◌≡◌, refl, ◌∙◌, String, Bool, Option, none, some, List, [], ◌∷◌, map, push_all, if◌then◌else◌,
  Bool-cases, inl, inr, Keys, Dict, member, arith,
}
use cc_rms_mqtt_monitor.Config.{Config}
use cc_rms_mqtt_monitor.Discovery.{Station}
use cc_rms_mqtt_monitor.Health.Metrics.{StationMetrics, HostMetrics}
use cc_rms_mqtt_monitor.Health.State.{State, build_state}
use cc_rms_mqtt_monitor.Health.Reading.{is_false}
use cc_rms_mqtt_monitor.Diagnose.{Escalation}
use cc_rms_mqtt_monitor.Diagnose.Probes.{with_probe}
use cc_rms_mqtt_monitor.Collect.Station.{collect_station}
use cc_rms_mqtt_monitor.Publisher.{Publisher, publish_state, publish_host_state, flush}
use cc_rms_mqtt_monitor.Publisher.Recorded.{
  ids, ids-publish_state, ids-publish_host_state, ids-clear_station,
}
use cc_rms_mqtt_monitor.Publisher.Endpoints.{Network, connect}
use cc_rms_mqtt_monitor.Publisher.Endpoints.Recorded.{ids-connect}
use cc_rms_mqtt_monitor.Monitor.Gather.{
  Tracker, Context, gather_station, station_state, stay_in_standby, collect_fully, probe_station,
  with_reachability,
}
use cc_rms_mqtt_monitor.Monitor.Records.{consenting}
use cc_rms_mqtt_monitor.Monitor.Consent.{wipe_opted_out, opted_out}
use cc_rms_mqtt_monitor.Monitor.Cycles.{Loop, ids_of, publish_states, run_once, publishing}
use cc_rms_mqtt_monitor.Monitor.Daemon.Raised.{Kept-publish_state, Kept-publish_host_state}
use cc_rms_mqtt_monitor.Monitor.Whole.{
  Seen, Turn, observe, gather_all, gather, connect_over, inputs_of, records_of,
}

-- the stations of records, in order
abbrev pub record_names : List (State StationMetrics) → List String
record_names = map (λ (s : State StationMetrics). s.metrics.station_id)

module _ (c : Context) (mono : ℕ) (seen : Station → Seen) where
  probe_station-record_names :
      (s : Station) (esc : Dict Escalation)
      → (probe_station c s.station_id (observe mono s (seen s)) esc).0.station_id ≡ s.station_id
  unfolding probe_station observe collect_station with_probe
  probe_station-record_names s esc = ground arith

  collect_fully-record_names :
      (s : Station) (tr : Tracker)
      → (collect_fully c s.station_id (observe mono s (seen s)) tr).1.metrics.station_id
        ≡ s.station_id
  unfolding collect_fully station_state build_state with_reachability
  collect_fully-record_names s tr = probe_station-record_names s tr.escalate

  gather_station-record_names :
      (s : Station) (tr : Tracker)
      → (gather_station c s.station_id (observe mono s (seen s)) tr).1.metrics.station_id
        ≡ s.station_id
  unfolding gather_station stay_in_standby station_state build_state observe
  gather_station-record_names s tr = elim (Bool-cases (member s.station_id tr.standby)) [
    | inr up ↦ rw up (collect_fully-record_names s tr)
    | inl down ↦ elim (Bool-cases (is_false (seen s).standby_ping)) [
      | inl unanswered ↦ rw (down, unanswered) refl
      | inr answered ↦ rw (down, answered) (collect_fully-record_names s _)
    ]
  ]

  gather_all-record_names :
      (ss : List Station) (tr : Tracker) → record_names (gather_all c mono seen ss tr).1 ≡ ids_of ss
  unfolding gather_all ids_of
  gather_all-record_names [] tr = refl
  gather_all-record_names (s ∷ ss) tr =
      ap₂ (λ x xs. x ∷ xs) (gather_station-record_names s tr) (gather_all-record_names ss _)

-- The records of a turn are those of the stations that consent, in their order.
pub records_of-record_names :
    (config : Config) (t : Turn) (tr : Tracker)
    → record_names (records_of config t tr).1 ≡ ids_of (consenting t.gathered)
unfolding records_of gather
records_of-record_names config t tr =
    gather_all-record_names _ t.mono t.seen (consenting t.gathered) tr

-- these on top where the link is up, and else nothing
abbrev pub topped : Bool → List String → List String → List String
topped up news old = if up then push_all news old else old

pub ids-publish_states :
    (ss : List (State StationMetrics)) (p : Publisher)
    → ids (publish_states ss p) ≡ topped p.connected (record_names ss) (ids p)
unfolding publish_states push_all
ids-publish_states [] p = ground arith
ids-publish_states (s ∷ ss) p = ground (
  arith,
  ids-publish_states ss (publish_state s.metrics.station_id s p),
  ids-publish_state s.metrics.station_id s p,
  (Kept-publish_state s.metrics.station_id s p).0,
)

ids-run_once :
    (host : Option (State HostMetrics)) (ss : List (State StationMetrics)) (p : Publisher)
    → ids (run_once host ss p) ≡ topped p.connected (record_names ss) (ids p)
unfolding run_once flush
ids-run_once none ss p = ids-publish_states ss p
ids-run_once (some h) ss p =
    ids-publish_states ss (publish_host_state h p)
    ∙ rw ((Kept-publish_host_state h p).0, ids-publish_host_state h p) refl

pub ids-wipe_opted_out :
    (sids : List String) (cleared : Keys) (p : Publisher)
    → ids (wipe_opted_out sids cleared p).1 ≡ ids p
unfolding wipe_opted_out
ids-wipe_opted_out [] cleared p = refl
ids-wipe_opted_out (sid ∷ sids) cleared p = elim (Bool-cases (member sid cleared)) [
  | inl old ↦ rw old (ids-wipe_opted_out sids cleared p)
  | inr new ↦ rw new (ids-wipe_opted_out sids _ _ ∙ ids-clear_station sid p)
]

pub ids-connect_over : (nets : List Network) (p : Publisher) → ids (connect_over nets p) ≡ ids p
unfolding connect_over
ids-connect_over [] p = refl
ids-connect_over (net ∷ nets) p = ids-connect_over nets (connect net p).0 ∙ ids-connect net p

-- the publisher that a cycle publishes with
abbrev pub opened : Turn → Loop → Publisher
opened t l = if l.connected then l.publisher else connect_over t.networks l.publisher

pub ids-opened : (t : Turn) (l : Loop) → ids (opened t l) ≡ ids l.publisher
ids-opened t l = ground (arith, ids-connect_over t.networks l.publisher)

-- With the link up, a cycle that completes hands over one record for each station that consents
-- when the stations are gathered, in their order, and of no other; with the link down none.
pub publishing-handed :
    (config : Config) (t : Turn) (tr : Tracker) (l : Loop)
    → ids (publishing (inputs_of config t tr) l).publisher
      ≡ topped (opened t l).connected (ids_of (consenting t.gathered)) (ids l.publisher)
unfolding publishing inputs_of
publishing-handed config t tr l =
    let i = inputs_of config t tr in
    let p = opened t l in
    ids-wipe_opted_out (opted_out t.listed) l.cleared (run_once i.host i.states p)
    ∙ ids-run_once i.host i.states p
    ∙ ap₂ (topped p.connected) (records_of-record_names config t tr) (ids-opened t l)
