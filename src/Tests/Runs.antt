-- ===== src/Tests/Runs.antt =====
-- Runs of cycles of cc_mqtt_monitor/monitor.py on a station whose camera does not answer.
use cc_rms_mqtt_monitor.Base.{
  ℕ, ◌+◌, ◌≤◌, ◌≡◌, refl, true, false, none, some, List, [], ◌∷◌, arith, if◌then◌else◌, lookup,
  insert, erase, member, add_key, str_eq, contains, leb_ℤ,
}
use cc_rms_mqtt_monitor.Config.{default_thresholds}
use cc_rms_mqtt_monitor.Health.{error}
use cc_rms_mqtt_monitor.Health.Reading.{is_false}
use cc_rms_mqtt_monitor.Health.Station.{unreachable_text}
use cc_rms_mqtt_monitor.Health.Stall.{output_stalled, resolve_expected, expected_age, settling}
use cc_rms_mqtt_monitor.Monitor.Gather.{
  Tracker, no_tracker, Context, Observation, gather_station, stay_in_standby, collect_fully,
  probe_station, gated_ping, track_unreachable,
}
use cc_rms_mqtt_monitor.Monitor.Standby.{
  Visit, after, Sustained, latest, standby-Sustained, answer_ends_standby,
}
use cc_rms_mqtt_monitor.Monitor.Published.{standby_published}
use cc_rms_mqtt_monitor.Tests.Verdicts.{late}

abbrev context : Context
context = record {
  thresholds = default_thresholds;
  adaptive_probe = false;
  disabled = [];
  host_uid = "host-1a2b";
  host_name = "host";
  timestamp = "now";
  host_metrics = none;
}

-- a cycle with stalled output and no answer
abbrev no_answer : ℕ → Observation
no_answer t = record {
  mono = t;
  standby_ping = some false;
  collected = late;
  tested = t;
  probe = λ m. m;
  probed = t;
  stall_ping = some false;
}

abbrev answer : Observation
answer = record (no_answer 500000) { standby_ping = some true; stall_ping = some true }

-- two silent cycles 350 seconds apart, the last one first
abbrev visits : List Visit
visits =
    record { station = "US0001"; context = context; seen = no_answer 350000 }
    ∷ record { station = "US0001"; context = context; seen = no_answer 0 }
    ∷ []

visits_standby : member "US0001" (after visits).standby ≡ true
unfolding gather_station stay_in_standby collect_fully probe_station gated_ping track_unreachable
    is_false member add_key lookup insert erase output_stalled settling resolve_expected
    expected_age leb_ℤ
visits_standby = refl

standby-Sustained_example :
    (since : ℕ) × Sustained "US0001" since visits × (since + 300000 ≤ latest visits)
standby-Sustained_example =
    standby-Sustained "US0001" 300000 visits (omega arith, refl, (omega arith, refl, tt))
      visits_standby

abbrev standing : Tracker
standing = record no_tracker { standby = ("US0001", tt) ∷ []; unreachable = ("US0001", 0) ∷ [] }

answer_ends_standby_example :
    let tr' = (gather_station context "US0001" answer standing).0 in
    (member "US0002" tr'.standby
      ≡ (if str_eq "US0001" "US0002" then false else member "US0002" standing.standby))
    × (lookup "US0002" tr'.unreachable
        ≡ (if str_eq "US0001" "US0002" then none else lookup "US0002" standing.unreachable))
answer_ends_standby_example =
    answer_ends_standby context "US0001" "US0002" answer standing (λ e. cc e) (λ e. cc e)

still_standing :
    member "US0001" (gather_station context "US0001" (no_answer 400000) standing).0.standby ≡ true
unfolding gather_station stay_in_standby is_false member lookup
still_standing = refl

all_enabled : contains "camera_unreachable" [] ≡ false
unfolding contains
all_enabled = refl

standby_published_example :
    let s = (gather_station context "US0001" (no_answer 400000) standing).1 in
    (s.status ≡ error) × (s.problems ≡ unreachable_text s.metrics ∷ [])
standby_published_example =
    standby_published context "US0001" (no_answer 400000) standing still_standing all_enabled
