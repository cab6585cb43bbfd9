-- ===== src/Health/RootCause.antt =====
-- The order of causes in `evaluate`, and the stall check against the gate of the camera ping.
use cc_rms_mqtt_monitor.Base.{
  ◌⊎◌, String, ◌≡◌, ◌∙◌, sym, Bool, true, false, Option, none, some, List, inl, inr, Bool-cases, ℤ,
  contains, Text, arith, if◌then◌else◌, ◌&&◌, fmt, one, str,
}
use cc_rms_mqtt_monitor.Config.{Thresholds}
use cc_rms_mqtt_monitor.Health.{
  Status, degraded, error, Verdict, fresh, flag, when, given, ◌>>◌, worse,
}
use cc_rms_mqtt_monitor.Health.Metrics.{StationMetrics, Output, ff, at_least}
use cc_rms_mqtt_monitor.Health.Reading.{is_false, opt}
use cc_rms_mqtt_monitor.Health.Findings.{add}
use cc_rms_mqtt_monitor.Health.Policy.{check_rest-Reports}
use cc_rms_mqtt_monitor.Health.Stall.{output_stalled, resolve_expected, expected_age}
use cc_rms_mqtt_monitor.Health.Station.{
  check_stalled, check_unreachable, unreachable_text, check_duplicate,
}
use cc_rms_mqtt_monitor.Health.Evaluate.{
  unreadable_text, check_rest, check_data, check_capture, check_station, evaluate,
}

-- whether output of the expected kind has ever been seen
abbrev pub seen : Option (Option ℤ) → Bool
seen (some (some a)) = true
seen (some none) = false
seen none = false

abbrev pub output_seen : StationMetrics → Thresholds → Bool
output_seen m th = seen (expected_age (resolve_expected m th) m)

abbrev pub stall_text : Output → StationMetrics → Text
stall_text ff m = fmt "Night capture stalled: no FF for %.0fs" (one (opt m.newest_fits_age_s))
stall_text _ m = fmt "Daytime capture stalled: no frames for %.0fs" (one (opt m.newest_frame_age_s))

-- The stall check reports an error exactly where the gate of the camera ping is open and output of
-- the expected kind has been seen before; else it leaves the verdict as it is.
pub check_stalled-eq-gate :
    (m : StationMetrics) (th : Thresholds) (d : List String) (v : Verdict)
    → check_stalled m th d v ≡ (
        if output_seen m th && output_stalled m th
        then flag error "capture_stalled" (stall_text (resolve_expected m th) m) d v
        else v)
unfolding check_stalled output_stalled when at_least
check_stalled-eq-gate m th d v = ground arith

worse-error : (s : Status) → worse error s ≡ error
unfolding worse
worse-error s = ground arith

-- later checks keep an error
rest_keeps_error :
    (m : StationMetrics) (th : Thresholds) (d : List String) (v : Verdict)
    → v.status ≡ error
    → (check_rest m th d v).status ≡ error
unfolding add
rest_keeps_error m th d v e = rw (check_rest-Reports m th).same (rw e (worse-error _))

-- A running station whose data can be read and whose output, seen before, is stalled, has status
-- error unless `capture_stalled` is disabled, whatever else was measured.
pub stall_is_error :
    (m : StationMetrics) (th : Thresholds) (d : List String)
    → m.camera_standby ≡ false
    → m.capture_alive ≡ true
    → is_false m.data_dir_readable ≡ false
    → contains "capture_stalled" d ≡ false
    → output_seen m th ≡ true
    → output_stalled m th ≡ true
    → (evaluate m th d).status ≡ error
unfolding evaluate check_station check_capture check_data ◌>>◌
stall_is_error m th d standby alive readable on was stalled =
    simp (standby, alive, readable)
      (rest_keeps_error m th d _
        (rw check_stalled-eq-gate (rw (was, stalled) (unfold flag worse in ground (arith, on)))))

-- What a hidden station's verdict is computed from.
abbrev hidden : StationMetrics → List String → Verdict
hidden m d =
    if m.camera_standby
    then check_unreachable m d fresh
    else if m.capture_alive
    then flag degraded "data_unreadable" unreadable_text d (check_duplicate m d fresh)
    else flag error "capture_down" (str "Capture process not running") d (check_duplicate m d fresh)

hidden_cong :
    (m n : StationMetrics) (d : List String)
    → m.camera_standby ≡ n.camera_standby
    → m.camera_unreachable_s ≡ n.camera_unreachable_s
    → m.capture_instances ≡ n.capture_instances
    → m.total_pss_mb ≡ n.total_pss_mb
    → m.total_rss_mb ≡ n.total_rss_mb
    → m.capture_alive ≡ n.capture_alive
    → hidden m d ≡ hidden n d
unfolding check_unreachable unreachable_text check_duplicate given when
hidden_cong m n d s u i p r a = simp (s, u, i, p, r, a)

evaluate-hidden :
    (m : StationMetrics) (th : Thresholds) (d : List String)
    → (m.camera_standby ≡ true) ⊎ (m.capture_alive ≡ false) ⊎ (m.data_dir_readable ≡ some false)
    → evaluate m th d ≡ hidden m d
unfolding evaluate check_station check_capture check_data ◌>>◌ is_false
evaluate-hidden m th d (inl standby) = simp standby
evaluate-hidden m th d (inr h) = elim (Bool-cases m.camera_standby) [
  | inl standby ↦ simp standby
  | inr active ↦ elim (Bool-cases m.capture_alive) [
    | inr down ↦ simp (active, down)
    | inl alive ↦ simp (active, alive, unreadable h alive)
  ]
]
  where
    unreadable :
        (m.capture_alive ≡ false) ⊎ (m.data_dir_readable ≡ some false)
        → m.capture_alive ≡ true
        → m.data_dir_readable ≡ some false
    unreadable (inl down) alive = cc
    unreadable (inr r) alive = r

-- The causes that hide the others. Two stations that agree on standby, on the time without an
-- answer, on the instances and their memory, on the liveness of the capture and on whether the
-- data can be read have the same verdict, whatever else was measured and under any thresholds, if
-- one of them is in standby, has no capture process, or has data that cannot be read.
pub evaluate_root_cause :
    (m n : StationMetrics) (th t : Thresholds) (d : List String)
    → m.camera_standby ≡ n.camera_standby
    → m.camera_unreachable_s ≡ n.camera_unreachable_s
    → m.capture_instances ≡ n.capture_instances
    → m.total_pss_mb ≡ n.total_pss_mb
    → m.total_rss_mb ≡ n.total_rss_mb
    → m.capture_alive ≡ n.capture_alive
    → m.data_dir_readable ≡ n.data_dir_readable
    → (m.camera_standby ≡ true) ⊎ (m.capture_alive ≡ false) ⊎ (m.data_dir_readable ≡ some false)
    → evaluate m th d ≡ evaluate n t d
evaluate_root_cause m n th t d s u i p r a f h =
    evaluate-hidden m th d h
    ∙ hidden_cong m n d s u i p r a
    ∙ sym (evaluate-hidden n t d (rw (s, a, f) at h))
