-- ===== src/Monitor/Published.antt =====
-- What is published of a station against the standby set.
use cc_rms_mqtt_monitor.Base.{
  String, ◌≡◌, ◌∙◌, refl, sym, ap, Bool, true, false, Keys, add_key, member-add_key, List, [], ◌∷◌,
  if◌then◌else◌, Bool-cases, inl, inr, arith, member, contains, eq_refl,
}
use cc_rms_mqtt_monitor.Config.{Thresholds}
use cc_rms_mqtt_monitor.Health.{error, flag, worse, fresh}
use cc_rms_mqtt_monitor.Health.Metrics.{StationMetrics}
use cc_rms_mqtt_monitor.Health.Reading.{is_false}
use cc_rms_mqtt_monitor.Health.Station.{check_unreachable, unreachable_text}
use cc_rms_mqtt_monitor.Health.Evaluate.{evaluate, check_station}
use cc_rms_mqtt_monitor.Health.State.{build_state}
use cc_rms_mqtt_monitor.Monitor.Gather.{
  Tracker, Observation, Context, gather_station, stay_in_standby, collect_fully, recover,
  with_reachability,
}
use cc_rms_mqtt_monitor.Monitor.Effect.{recovered}

unreachable_verdict :
    (m : StationMetrics) (th : Thresholds) (d : List String)
    → m.camera_standby ≡ true
    → contains "camera_unreachable" d ≡ false
    → ((evaluate m th d).status ≡ error) × ((evaluate m th d).problems ≡ unreachable_text m ∷ [])
unfolding evaluate check_station check_unreachable flag worse
unreachable_verdict m th d down on = simp (down, on) (refl, refl)

member_added :
    (sid : String) (b : Bool) (s : Keys)
    → member sid s ≡ false
    → member sid (if b then add_key sid s else s) ≡ b
member_added sid b s fresh = ground (arith, member-add_key sid sid s, eq_refl sid)

module _ (c : Context) (sid : String) (o : Observation) where
  full_flag :
      (tr : Tracker)
      → member sid tr.standby ≡ false
      → let (tr', s) = collect_fully c sid o tr in s.metrics.camera_standby ≡ member sid tr'.standby
  unfolding collect_fully build_state with_reachability
  full_flag tr fresh = sym (member_added sid _ tr.standby fresh)

  -- What is published says standby exactly where the station is in the standby set afterwards.
  published_standby :
      (tr : Tracker)
      → let (tr', s) = gather_station c sid o tr in
        s.metrics.camera_standby ≡ member sid tr'.standby
  unfolding gather_station stay_in_standby build_state
  published_standby tr = elim (Bool-cases (member sid tr.standby)) [
    | inr up ↦ rw up (full_flag tr up)
    | inl down ↦ elim (Bool-cases (is_false o.standby_ping)) [
      | inl no_answer ↦ rw (down, no_answer) (sym down)
      | inr answer ↦ rw (down, answer) (full_flag (recover sid o c tr) (recovered c sid o tr).0)
    ]
  ]

  standby_state :
      (tr : Tracker)
      → let s = (gather_station c sid o tr).1 in
        (v : StationMetrics) × (s.metrics ≡ v)
        × (s.status ≡ (evaluate v c.thresholds c.disabled).status)
        × (s.problems ≡ (evaluate v c.thresholds c.disabled).problems)
  unfolding gather_station stay_in_standby collect_fully build_state
  standby_state tr = elim (Bool-cases (member sid tr.standby)) [
    | inr up ↦ rw up (_, refl, refl, refl)
    | inl down ↦ elim (Bool-cases (is_false o.standby_ping)) [
      | inl no_answer ↦ rw (down, no_answer) (_, refl, refl, refl)
      | inr answer ↦ rw (down, answer) (_, refl, refl, refl)
    ]
  ]

  -- A station that is in standby after its cycle is published with status error and one problem,
  -- unless that check is disabled.
  pub standby_published :
      (tr : Tracker)
      → member sid (gather_station c sid o tr).0.standby ≡ true
      → contains "camera_unreachable" c.disabled ≡ false
      → let s = (gather_station c sid o tr).1 in
        (s.status ≡ error) × (s.problems ≡ unreachable_text s.metrics ∷ [])
  standby_published tr h on =
      let (v, e, status, problems) = standby_state tr in
      let down = ap (λ (m : StationMetrics). m.camera_standby) (sym e) ∙ published_standby tr ∙ h in
      let verdict = unreachable_verdict v c.thresholds c.disabled down on in
      (status ∙ verdict.0, problems ∙ verdict.1 ∙ ap (λ m. unreachable_text m ∷ []) (sym e))
