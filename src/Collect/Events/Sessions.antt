-- ===== src/Collect/Events/Sessions.antt =====
-- The counters of `collect_capture_events` in cc_mqtt_monitor/collect.py: since the session began.
use cc_rms_mqtt_monitor.Base.{
  ℕ, suc, ◌+◌, ◌≤◌, ◌≡◌, refl, ap, ◌∙◌, String, true, Option, none, some, List, [], ◌∷◌, ◌++◌,
  arith, Bool-cases, inl, inr, length, length-append, str_eq,
}
use cc_rms_mqtt_monitor.StateFiles.{Cell}
use cc_rms_mqtt_monitor.Collect.Disconnects.{disc_history}
use cc_rms_mqtt_monitor.Collect.Disconnects.Bursts.{classify_adds_up}
use cc_rms_mqtt_monitor.Collect.Events.{
  Patterns, Scan, CaptureEvents, no_scan, add_time, count_drop, scan_numbers, scan_capture,
  scan_line, scan_log, events_of, collect_capture_events,
}

line_session :
    (p : Patterns) (line : String) (s t : Scan)
    → s.session ≡ t.session
    → (scan_line p line s).session ≡ (scan_line p line t).session
unfolding scan_line scan_capture scan_numbers
line_session p line s t e = ground (arith, e)

scan_session :
    (p : Patterns) (lines : List String) (s t : Scan)
    → s.session ≡ t.session
    → (scan_log p lines s).session ≡ (scan_log p lines t).session
unfolding scan_log
scan_session p [] s t e = e
scan_session p (line ∷ lines) s t e =
    scan_session p lines (scan_line p line s) (scan_line p line t) (line_session p line s t e)

scan-append :
    (p : Patterns) (xs ys : List String) (s : Scan)
    → scan_log p (xs ++ ys) s ≡ scan_log p ys (scan_log p xs s)
unfolding scan_log
scan-append p [] ys s = refl
scan-append p (x ∷ xs) ys s = scan-append p xs ys (scan_line p x s)

transition_resets :
    (p : Patterns) (line : String) (s : Scan)
    → p.transition line ≡ true
    → (scan_line p line s).session ≡ no_scan.session
unfolding scan_line
transition_resets p line s h = rw h refl

-- The counters of the session after a day and night transition in the log are those of the lines
-- that follow it alone.
pub transition_resets_session :
    (p : Patterns) (before : List String) (line : String) (after : List String)
    → p.transition line ≡ true
    → (scan_log p (before ++ line ∷ after) no_scan).session ≡ (scan_log p after no_scan).session
unfolding scan_log
transition_resets_session p before line after h =
    ap (λ (s : Scan). s.session) (scan-append p before (line ∷ after) no_scan)
    ∙ scan_session p after _ no_scan (transition_resets p line (scan_log p before no_scan) h)

-- no more times than disconnects
abbrev Timed : Scan → Type 0
Timed s = length s.session.disc_ts ≤ s.session.disc

length-add_time : (o : Option ℕ) (ts : List ℕ) → length (add_time o ts) ≤ suc (length ts)
unfolding add_time
length-add_time none ts = omega arith
length-add_time (some t) ts = omega (arith, length-append ts (t ∷ []))

line-Timed : (p : Patterns) (line : String) (s : Scan) → Timed s → Timed (scan_line p line s)
unfolding scan_line scan_capture scan_numbers count_drop
line-Timed p line s h = ground (arith, length-add_time (p.log_ts line) s.session.disc_ts)

scan-Timed : (p : Patterns) (lines : List String) (s : Scan) → Timed s → Timed (scan_log p lines s)
unfolding scan_log
scan-Timed p [] s h = h
scan-Timed p (line ∷ lines) s h = scan-Timed p lines (scan_line p line s) (line-Timed p line s h)

events_add_up :
    (now : ℕ) (history : List ℕ) (s : Scan)
    → Timed s
    → let e = events_of now history s in
      e.disconnects_scheduled_session + e.disconnects_unplanned_session ≡ e.disconnects_session
unfolding events_of
events_add_up now history s h = omega (arith, classify_adds_up s.session.disc_ts history)

-- Whatever the log and the record of earlier days hold, the disconnects that are published as
-- scheduled and as unplanned are together all those of the session, and a log that is there and
-- can be read has its events published.
pub disconnects_add_up :
    (p : Patterns) (now : ℕ) (station : String) (lines : List String) (cells : List (Cell (List ℕ)))
    → (e : CaptureEvents) × ((collect_capture_events p now station (some lines) cells).0 ≡ some e)
      × (e.disconnects_scheduled_session + e.disconnects_unplanned_session ≡ e.disconnects_session)
unfolding collect_capture_events
disconnects_add_up p now station lines cells =
    let s = scan_log p lines no_scan in
    let timed = scan-Timed p lines no_scan (omega arith) in
    let earlier = (disc_history s.session.disc_ts now cells).0 in
    elim (Bool-cases (str_eq station "")) [
      | inl nameless ↦ (events_of now [] s, rw nameless refl, events_add_up now [] s timed)
      | inr named ↦ (events_of now earlier s, rw named refl, events_add_up now earlier s timed)
    ]
