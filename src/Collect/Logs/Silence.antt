-- ===== src/Collect/Logs/Silence.antt =====
-- The alerts of a log that is older than the window of `collect_logs` in cc_mqtt_monitor/collect.py.
use mathlib.Core.Path.{subst}
use cc_rms_mqtt_monitor.Base.{
  ℕ, ◌-◌, sym, ◌==◌, ◌<◌, ◌≡◌, refl, String, Bool, false, Option, none, some, List, [], ◌∷◌, arith,
  All,
}
use cc_rms_mqtt_monitor.Collect.Logs.{
  Patterns, LogScan, no_log, in_window, stamp, Buffer, count_fatal, count_warning, count_stream,
  scan_alerts, add_point, cutoff_of, collect_logs, note_mode, scan_line, scan_lines,
}

-- A line has no timestamp, or one before the time given.
abbrev pub IsStale : Patterns → ℕ → String → Type 0
IsStale p c line = (t : ℕ) → p.log_ts line ≡ some t → t < c

-- no alert of any kind
abbrev pub IsSilent : LogScan → Type 0
IsSilent s =
    (s.fatal_error_count ≡ 0)
    × (s.last_error ≡ none)
    × (s.warning_count ≡ 0)
    × (s.last_warning ≡ none)
    × (s.last_watchdog_event ≡ none)
    × (s.pipeline_reconnects ≡ 0)
    × (s.decoder_errors ≡ 0)

IsSilent-rest :
    (o : Option ℕ) (b : Option Buffer) (d : Option Bool) (s : LogScan)
    → IsSilent s
    → IsSilent (note_mode d (add_point o b s))
unfolding note_mode add_point
IsSilent-rest o none none s h = h
IsSilent-rest o none (some x) s h = h
IsSilent-rest o (some b) none s h = h
IsSilent-rest o (some b) (some x) s h = h

IsSilent-stamp : (o : Option ℕ) (s : LogScan) → IsSilent s → IsSilent (stamp o s)
unfolding stamp
IsSilent-stamp none s h = h
IsSilent-stamp (some t) s h = h

-- the latest timestamp so far is there, and before the cutoff
IsPast : ℕ → Option ℕ → Type 0
IsPast c none = ⊥
IsPast c (some t) = t < c

past_shut : (c : ℕ) (o : Option ℕ) → IsPast c o → in_window (some c) o ≡ false
unfolding IsPast in_window
past_shut c none h = absurd h
past_shut c (some t) h = ground (arith, h)

IsPast-stamp :
    (c : ℕ) (o : Option ℕ) (s : LogScan)
    → ((t : ℕ) → o ≡ some t → t < c)
    → IsPast c s.last_ts
    → IsPast c (stamp o s).last_ts
unfolding IsPast stamp
IsPast-stamp c none s stale h = h
IsPast-stamp c (some t) s stale h = stale t refl

IsSilent-line :
    (p : Patterns) (c : ℕ) (line : String) (after : List String) (s : LogScan)
    → IsPast c (stamp (p.log_ts line) s).last_ts
    → IsSilent s
    → IsSilent (scan_line p (some c) line after s)
unfolding scan_line
IsSilent-line p c line after s past h = rw (past_shut c (stamp (p.log_ts line) s).last_ts past) (
    IsSilent-rest (p.log_ts line) (p.buffer line) (p.daytime_mode line) (stamp (p.log_ts line) s)
      (IsSilent-stamp (p.log_ts line) s h))

last_ts-scan_line :
    (p : Patterns) (c : Option ℕ) (line : String) (after : List String) (s : LogScan)
    → (scan_line p c line after s).last_ts ≡ (stamp (p.log_ts line) s).last_ts
unfolding scan_line scan_alerts count_fatal count_warning count_stream note_mode add_point
last_ts-scan_line p c line after s = ground arith

IsSilent-lines :
    (p : Patterns) (c : ℕ) (lines : List String) (s : LogScan)
    → All (IsStale p c) lines
    → IsPast c s.last_ts
    → IsSilent s
    → IsSilent (scan_lines p (some c) lines s)
unfolding scan_lines
IsSilent-lines p c [] s stale past h = h
IsSilent-lines p c (line ∷ lines) s (own, stale) past h =
    let now_past = IsPast-stamp c (p.log_ts line) s own past in
    IsSilent-lines p c lines (scan_line p (some c) line lines s) stale
      (subst (IsPast c) (sym (last_ts-scan_line p (some c) line lines s)) now_past)
      (IsSilent-line p c line lines s now_past h)

-- Where the first line of the tail has a timestamp and every timestamp in it is older than the
-- window, which is not 0, no fatal error, warning, watchdog event, reconnect or decoder error of
-- the log is reported.
pub old_log-IsSilent :
    (p : Patterns) (now w t : ℕ) (line : String) (lines : List String)
    → 0 < w
    → p.log_ts line ≡ some t
    → All (IsStale p (now - w)) (line ∷ lines)
    → IsSilent (collect_logs p now (some w) (some (line ∷ lines))).scanned
unfolding collect_logs cutoff_of scan_lines IsPast stamp
old_log-IsSilent p now w t line lines pos first (own, stale) =
    let past : IsPast (now - w) (stamp (p.log_ts line) no_log).last_ts = rw first (own t first) in
    let nonzero : (w == 0) ≡ false = ground arith in
    rw nonzero (
      IsSilent-lines p (now - w) lines (scan_line p (some (now - w)) line lines no_log) stale
        (subst (IsPast (now - w)) (sym (last_ts-scan_line p _ line lines no_log)) past)
        (IsSilent-line p (now - w) line lines no_log past
          (refl, refl, refl, refl, refl, refl, refl)))
