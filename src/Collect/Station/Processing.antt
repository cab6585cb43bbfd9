-- ===== src/Collect/Station/Processing.antt =====
-- The processing run that `collect_station` of cc_mqtt_monitor/collect.py reports, from the lines of the log and
-- the processes.
use mathlib.Core.Option
use mathlib.Core.Path.{subst}
use cc_rms_mqtt_monitor.Base.{
  ℕ, ◌≡◌, ◌↔◌, sym, String, Bool, true, ◌&&◌, Option, none, some, List, [], some_and, arith,
  Bool-cases, inl, inr, str_eq,
}
use cc_rms_mqtt_monitor.StateFiles.{Cell}
use cc_rms_mqtt_monitor.Collect.Events.{
  CaptureEvents, Patterns, collect_capture_events, scan_log, no_scan,
}
use cc_rms_mqtt_monitor.Collect.Events.Episodes.{Unclosed, processing_iff}
use cc_rms_mqtt_monitor.Collect.Disconnects.{disc_history}
use cc_rms_mqtt_monitor.Collect.Station.{Collected, settle, collect_station}

-- there is a log, and its last episode is not closed
abbrev pub IsOpen : Patterns → Option (List String) → Type 0
IsOpen p none = ⊥
IsOpen p (some lines) = Unclosed p lines

-- whether a processing run is reported
abbrev pub is_processing : Option CaptureEvents → Bool
is_processing o = some_and o (λ (e : CaptureEvents). e.processing_active)

collected_iff :
    (p : Patterns) (now : ℕ) (station : String) (log : Option (List String))
    (cells : List (Cell (List ℕ)))
    → (is_processing (collect_capture_events p now station log cells).0 ≡ true) ↔ IsOpen p log
unfolding collect_capture_events
collected_iff p now station none cells = ground arith
collected_iff p now station (some lines) cells =
    let earlier = (disc_history (scan_log p lines no_scan).session.disc_ts now cells).0 in
    elim (Bool-cases (str_eq station "")) [
      | inl unnamed ↦ rw unnamed (processing_iff p now [] lines)
      | inr named ↦ rw named (processing_iff p now earlier lines)
    ]

settled :
    (alive : Bool) (o : Option CaptureEvents)
    → is_processing (Option.map (settle alive) o) ≡ (alive && is_processing o)
unfolding settle
settled alive none = ground arith
settled alive (some e) = ground arith

-- The record of a station reports a processing run exactly where its capture is alive and some line of its log
-- opens an episode that no line after it closes; without a log it reports none.
pub processing_reported :
    (p : Patterns) (now : ℕ) (station : String) (log : Option (List String))
    (cells : List (Cell (List ℕ))) (c : Collected)
    → c.events ≡ (collect_capture_events p now station log cells).0
    → let r = collect_station station c in
      (is_processing r.events ≡ true) ↔ ((r.metrics.capture_alive ≡ true) × IsOpen p log)
unfolding collect_station
processing_reported p now station log cells c ran =
    let alive = c.process.capture_alive in
    let (here, there) = collected_iff p now station log cells in
    subst
      (λ o. (is_processing (Option.map (settle alive) o) ≡ true) ↔ ((alive ≡ true) × IsOpen p log))
      (sym ran) (rw settled (ground (arith, here, there)))
