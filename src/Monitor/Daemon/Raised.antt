-- ===== src/Monitor/Daemon/Raised.antt =====
-- Cycles of `run_loop` in cc_mqtt_monitor/monitor.py that raise, and the first one after them that does not.
use mathlib.Core.Path.{subst}
use cc_rms_mqtt_monitor.Base.{
  ℕ, zero, suc, ◌≡◌, inr, refl, ap, ◌∙◌, String, true, false, Option, none, some, List, [], ◌∷◌,
  contains, member, arith,
}
use cc_rms_mqtt_monitor.Health.Metrics.{StationMetrics, HostMetrics}
use cc_rms_mqtt_monitor.Health.State.{State}
use cc_rms_mqtt_monitor.Publisher.{
  Publisher, publish, publish_state, publish_host_state, flush, send,
}
use cc_rms_mqtt_monitor.Publisher.Offline.{emptied}
use cc_rms_mqtt_monitor.Monitor.Consent.{
  opted_out, Sent, wipe_opted_out, wipe_opted_out_recorded, wipe_opted_out-up,
}
use cc_rms_mqtt_monitor.Monitor.Cycles.{Loop, Inputs, publish_states, run_once, publishing}
use cc_rms_mqtt_monitor.Monitor.Daemon.{first_states, run_raised, try_publishing}

-- The link and the prefix of the topics stay as they are.
abbrev pub Kept : Publisher → Publisher → Type 0
Kept q p = (q.connected ≡ p.connected) × (q.topic_prefix ≡ p.topic_prefix)

pub Kept-publish_state :
    (sid : String) (s : State StationMetrics) (p : Publisher) → Kept (publish_state sid s p) p
unfolding publish_state publish send
Kept-publish_state sid s p = ground arith

pub Kept-publish_host_state :
    (h : State HostMetrics) (p : Publisher) → Kept (publish_host_state h p) p
unfolding publish_host_state publish send
Kept-publish_host_state h p = ground arith

Kept-publish_states :
    (ss : List (State StationMetrics)) (p : Publisher) → Kept (publish_states ss p) p
unfolding publish_states
Kept-publish_states [] p = (refl, refl)
Kept-publish_states (s ∷ ss) p =
    let (a, b) = Kept-publish_states ss (publish_state s.metrics.station_id s p) in
    let (c, d) = Kept-publish_state s.metrics.station_id s p in (a ∙ c, b ∙ d)

Kept-run_once :
    (host : Option (State HostMetrics)) (ss : List (State StationMetrics)) (p : Publisher)
    → Kept (run_once host ss p) p
unfolding run_once flush
Kept-run_once none ss p = Kept-publish_states ss p
Kept-run_once (some h) ss p =
    let (a, b) = Kept-publish_states ss (publish_host_state h p) in
    let (c, d) = Kept-publish_host_state h p in (a ∙ c, b ∙ d)

Kept-run_raised :
    (n : ℕ) (host : Option (State HostMetrics)) (ss : List (State StationMetrics)) (p : Publisher)
    → Kept (run_raised n host ss p) p
unfolding run_raised
Kept-run_raised zero host ss p = (refl, refl)
Kept-run_raised (suc n) none ss p = Kept-publish_states (first_states (suc n) ss) p
Kept-run_raised (suc n) (some h) ss p =
    let (a, b) = Kept-publish_states (first_states n ss) (publish_host_state h p) in
    let (c, d) = Kept-publish_host_state h p in (a ∙ c, b ∙ d)

-- cycles that raise, each with its inputs and the number of records before that
unfoldable pub all_raised : List (ℕ × Inputs) → Loop → Loop
all_raised [] l = l
all_raised ((n, i) ∷ rest) l = all_raised rest (try_publishing (some n) i l)

try_raised :
    (n : ℕ) (i : Inputs) (l : Loop)
    → l.connected ≡ true
    → let l' = try_publishing (some n) i l in
      (l'.connected ≡ true) × (l'.cleared ≡ l.cleared) × Kept l'.publisher l.publisher
unfolding try_publishing
try_raised n i l on =
    let (a, b) = Kept-run_raised n i.host i.states l.publisher in simp on (refl, refl, (a, b))

all_raised_lem :
    (rounds : List (ℕ × Inputs)) (l : Loop)
    → l.connected ≡ true
    → l.publisher.connected ≡ true
    → let l' = all_raised rounds l in
      (l'.connected ≡ true)
      × (l'.publisher.connected ≡ true)
      × (l'.cleared ≡ l.cleared)
      × (l'.publisher.topic_prefix ≡ l.publisher.topic_prefix)
unfolding all_raised
all_raised_lem [] l on up = (on, up, refl, refl)
all_raised_lem ((n, i) ∷ rest) l on up =
    let l1 = try_publishing (some n) i l in
    let (on1, kept, (same, prefix)) = try_raised n i l on in
    let (on', up', cleared, prefix') = all_raised_lem rest l1 on1 (same ∙ up) in
    (on', up', cleared ∙ kept, prefix' ∙ prefix)

publishing-wipes :
    (i : Inputs) (l : Loop) (sid : String)
    → l.connected ≡ true
    → l.publisher.connected ≡ true
    → member sid l.cleared ≡ false
    → contains sid (opted_out i.stations) ≡ true
    → Sent (emptied l.publisher.topic_prefix sid "health") (publishing i l).publisher.sent
unfolding publishing
publishing-wipes i l sid on up fresh out =
    let q = run_once i.host i.states l.publisher in
    let ids = opted_out i.stations in
    let (link, prefix) = Kept-run_once i.host i.states l.publisher in
    let done = wipe_opted_out-up ids l.cleared q sid (link ∙ up) (inr out) in
    simp on (
      subst (λ pre. Sent (emptied pre sid "health") (wipe_opted_out ids l.cleared q).1.sent) prefix
        (wipe_opted_out_recorded ids l.cleared q sid fresh done))

-- A station that has opted out and was not wiped before has its tombstone handed to the client by the first cycle
-- that completes, however many cycles raised before, where the link is up throughout.
pub raised_then_wiped :
    (rounds : List (ℕ × Inputs)) (i : Inputs) (l : Loop) (sid : String)
    → l.connected ≡ true
    → l.publisher.connected ≡ true
    → member sid l.cleared ≡ false
    → contains sid (opted_out i.stations) ≡ true
    → let l' = publishing i (all_raised rounds l) in
      Sent (emptied l.publisher.topic_prefix sid "health") l'.publisher.sent
raised_then_wiped rounds i l sid on up fresh out =
    let l' = all_raised rounds l in
    let (on', up', cleared, prefix) = all_raised_lem rounds l on up in
    subst (λ pre. Sent (emptied pre sid "health") (publishing i l').publisher.sent) prefix
      (publishing-wipes i l' sid on' up' (ap (member sid) cleared ∙ fresh) out)
