-- ===== src/Collect/Logs/Window.antt =====
-- The time window of the alerts of `collect_logs` in cc_mqtt_monitor/collect.py.
use mathlib.Core.Path.{subst}
use cc_rms_mqtt_monitor.Base.{
  ℕ, ◌≤◌, ◌<◌, ◌≡◌, refl, ap, String, Bool, true, false, Option, none, some, List, [], ◌∷◌, ◌++◌,
  arith, Bool-cases, inl, inr, if◌then◌else◌,
}
use cc_rms_mqtt_monitor.Collect.Buffer.{max_leadup}
use cc_rms_mqtt_monitor.Collect.Logs.{
  Patterns, LogScan, no_log, in_window, stamp, Buffer, count_fatal, count_warning, count_stream,
  scan_alerts, point_of, add_point, cutoff_of, collect_logs, note_mode, scan_line, scan_lines,
}

-- The scan s of a narrower window has counted no more than the scan t of a wider one.
pub record Within (s t : LogScan) : Type 0 where
  pub last_ts : s.last_ts ≡ t.last_ts
  pub fatal : s.fatal_error_count ≤ t.fatal_error_count
  pub warning : s.warning_count ≤ t.warning_count
  pub reconnects : s.pipeline_reconnects ≤ t.pipeline_reconnects
  pub decoder : s.decoder_errors ≤ t.decoder_errors
  pub points : s.buffer_points ≡ t.buffer_points

stamp-Within : (o : Option ℕ) (s t : LogScan) → Within s t → Within (stamp o s) (stamp o t)
unfolding stamp
stamp-Within none s t h = h
stamp-Within (some x) s t h = record {
  last_ts = refl;
  fatal = h.fatal;
  warning = h.warning;
  reconnects = h.reconnects;
  decoder = h.decoder;
  points = h.points;
}

alerts-Within :
    (p : Patterns) (line : String) (after : List String) (s t : LogScan)
    → Within s t
    → Within (scan_alerts p line after s) (scan_alerts p line after t)
unfolding scan_alerts count_fatal count_warning count_stream
alerts-Within p line after s t h = ground (arith, h)

alerts_grow :
    (p : Patterns) (line : String) (after : List String) (s t : LogScan)
    → Within s t
    → Within s (scan_alerts p line after t)
unfolding scan_alerts count_fatal count_warning count_stream
alerts_grow p line after s t h = ground (arith, h)

abbrev Narrower : Option ℕ → Option ℕ → Type 0
Narrower c d = (ts : Option ℕ) → in_window c ts ≡ true → in_window d ts ≡ true

outside :
    (c d : Option ℕ) (s t : LogScan)
    → Narrower c d
    → Within s t
    → in_window d t.last_ts ≡ false
    → in_window c s.last_ts ≡ false
outside c d s t n h out = elim (Bool-cases (in_window c s.last_ts)) [
  | inl narrow ↦ absurd (cc (n t.last_ts (subst (λ o. in_window c o ≡ true) h.last_ts narrow), out))
  | inr shut ↦ shut
]

gated :
    (p : Patterns) (c d : Option ℕ) (line : String) (after : List String) (s t : LogScan)
    → Narrower c d
    → Within s t
    → Within
        (if in_window c s.last_ts then scan_alerts p line after s else s)
        (if in_window d t.last_ts then scan_alerts p line after t else t)
gated p c d line after s t n h = elim (Bool-cases (in_window d t.last_ts)) [
  | inl wide ↦ elim (Bool-cases (in_window c s.last_ts)) [
    | inl narrow ↦ rw (wide, narrow) (alerts-Within p line after s t h)
    | inr out ↦ rw (wide, out) (alerts_grow p line after s t h)
  ]
  | inr out ↦ let shut : in_window c s.last_ts ≡ false = outside c d s t n h out in rw (out, shut) h
]

points-Within :
    (o : Option ℕ) (b : Option Buffer) (s t : LogScan)
    → Within s t
    → Within (add_point o b s) (add_point o b t)
unfolding add_point
points-Within o none s t h = h
points-Within o (some b) s t h = record {
  last_ts = h.last_ts;
  fatal = h.fatal;
  warning = h.warning;
  reconnects = h.reconnects;
  decoder = h.decoder;
  points = ap (λ qs. qs ++ point_of o b ∷ []) h.points;
}

mode-Within :
    (o : Option Bool) (s t : LogScan) → Within s t → Within (note_mode o s) (note_mode o t)
unfolding note_mode
mode-Within none s t h = h
mode-Within (some day) s t h = record {
  last_ts = h.last_ts;
  fatal = h.fatal;
  warning = h.warning;
  reconnects = h.reconnects;
  decoder = h.decoder;
  points = h.points;
}

lines-Within :
    (p : Patterns) (c d : Option ℕ) (lines : List String) (s t : LogScan)
    → Narrower c d
    → Within s t
    → Within (scan_lines p c lines s) (scan_lines p d lines t)
unfolding scan_lines scan_line
lines-Within p c d [] s t n h = h
lines-Within p c d (line ∷ lines) s t n h =
    lines-Within p c d lines (scan_line p c line lines s) (scan_line p d line lines t) n (
      mode-Within (p.daytime_mode line) _ _ (
        points-Within (p.log_ts line) (p.buffer line) _ _
          (gated p c d line lines _ _ n (stamp-Within (p.log_ts line) s t h))))

wider : (now w v : ℕ) → 0 < w → w ≤ v → Narrower (cutoff_of now (some w)) (cutoff_of now (some v))
unfolding cutoff_of in_window
wider now w v pos le none h = ground arith
wider now w v pos le (some t) h = ground (arith, h)

Within-refl : (s : LogScan) → Within s s
Within-refl s = record {
  last_ts = refl;
  fatal = omega arith;
  warning = omega arith;
  reconnects = omega arith;
  decoder = omega arith;
  points = refl;
}

-- With a shorter window, not 0, the tail of a log raises no more alerts of any kind that is counted
-- than with a longer one, and has the same peak before a drop.
shorter_window :
    (p : Patterns) (now w v : ℕ) (lines : List String)
    → 0 < w
    → w ≤ v
    → let m = collect_logs p now (some w) (some lines) in
      let n = collect_logs p now (some v) (some lines) in
      (m.scanned.fatal_error_count ≤ n.scanned.fatal_error_count)
      × (m.scanned.warning_count ≤ n.scanned.warning_count)
      × (m.scanned.pipeline_reconnects ≤ n.scanned.pipeline_reconnects)
      × (m.scanned.decoder_errors ≤ n.scanned.decoder_errors)
      × (m.buffer_fill_max_leadup ≡ n.buffer_fill_max_leadup)
unfolding collect_logs
shorter_window p now w v lines pos le =
    let h =
      lines-Within p (cutoff_of now (some w)) (cutoff_of now (some v)) lines no_log no_log
        (wider now w v pos le) (Within-refl no_log) in
    (h.fatal, h.warning, h.reconnects, h.decoder, ap max_leadup h.points)
