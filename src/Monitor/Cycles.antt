-- ===== src/Monitor/Cycles.antt =====
-- `run_once` and a cycle of `run_loop` in cc_mqtt_monitor/monitor.py. The records that were built
-- and the publisher after `_connect_with_retry` are inputs; a cycle that raises and the exit of
-- the watchdog are left out.
use cc_rms_mqtt_monitor.Base.{
  ◌≡◌, refl, String, Bool, true, false, ◌||◌, Option, none, some, List, [], ◌∷◌, if◌then◌else◌,
  contains, Keys, Bool-cases, inl, inr,
}
use cc_rms_mqtt_monitor.Health.Metrics.{StationMetrics, HostMetrics}
use cc_rms_mqtt_monitor.Health.State.{State}
use cc_rms_mqtt_monitor.Publisher.{Publisher, publish_state, publish_host_state, flush, go_silent}
use cc_rms_mqtt_monitor.Discovery.{Station}
use cc_rms_mqtt_monitor.Monitor.Consent.{is_publishable, opted_out, wipe_opted_out}

unfoldable pub publish_states : List (State StationMetrics) → Publisher → Publisher
publish_states [] p = p
publish_states (s ∷ ss) p = publish_states ss (publish_state s.metrics.station_id s p)

unfoldable pub run_once :
    Option (State HostMetrics) → List (State StationMetrics) → Publisher → Publisher
unfolding publish_states
run_once host states p =
    let p1 : Publisher = elim host [ none ↦ p | some h ↦ publish_host_state h p ] in
    flush (publish_states states p1)

-- `cleared &= set(opted_out)`
unfoldable pub keep_only : List String → Keys → Keys
keep_only ids [] = []
keep_only ids ((k, u) ∷ cleared) =
    let rest = keep_only ids cleared in if contains k ids then (k, u) ∷ rest else rest

unfoldable pub has_consent : List Station → Bool
has_consent [] = false
has_consent (s ∷ ss) = is_publishable s || has_consent ss

unfoldable pub ids_of : List Station → List String
ids_of [] = []
ids_of (s ∷ ss) = s.station_id ∷ ids_of ss

pub record Loop : Type 0 where
  pub connected : Bool
  pub cleared : Keys
  pub publisher : Publisher

-- what a cycle is given besides the state of the loop
pub record Inputs : Type 0 where
  pub stations : List Station
  pub connecting : Publisher → Publisher
  pub host : Option (State HostMetrics)
  pub states : List (State StationMetrics)

-- a cycle with a station that consents
unfoldable pub publishing : Inputs → Loop → Loop
publishing i l =
    let p = if l.connected then l.publisher else i.connecting l.publisher in
    let (cleared, p') =
      wipe_opted_out (opted_out i.stations) l.cleared (run_once i.host i.states p) in
    record { connected = true; cleared = keep_only (opted_out i.stations) cleared; publisher = p' }

-- a cycle without one
unfoldable pub silencing : Inputs → Loop → Loop
silencing i l =
    if l.connected
    then record {
      connected = false;
      cleared = [];
      publisher = go_silent (ids_of i.stations) l.publisher;
    }
    else l

unfoldable pub cycle : Inputs → Loop → Loop
cycle i l = if has_consent i.stations then publishing i l else silencing i l

-- Once no station consents, one cycle disconnects the host, and every later such cycle leaves the
-- loop and the publisher as they are.
pub cycle_silent_once :
    (i j : Inputs) (l : Loop)
    → has_consent i.stations ≡ false
    → has_consent j.stations ≡ false
    → ((cycle i l).connected ≡ false) × (cycle j (cycle i l) ≡ cycle i l)
unfolding cycle silencing
cycle_silent_once i j l a b = elim (Bool-cases l.connected) [
  | inl up ↦ simp (a, b, up) (refl, refl)
  | inr down ↦ simp (a, b, down) (refl, refl)
]
