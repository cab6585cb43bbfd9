-- ===== src/Collect/Station/Crashes.antt =====
-- Crashes in what `collect_station` of cc_mqtt_monitor/collect.py gives together.
use mathlib.Core.Path.{subst}
use cc_rms_mqtt_monitor.Base.{
  ◌<◌, ◌≡◌, inl, inr, refl, ap, sym, ◌∙◌, String, true, Option, none, some, List, [], ◌∷◌, arith,
  Bool-cases, is_some, any, Dict,
}
use cc_rms_mqtt_monitor.Collect.Logs.{Patterns, fatal_match}
use cc_rms_mqtt_monitor.Collect.Journal.{
  Fatal, fatal_line, scan_unit, fatal_lines, fatal_of, capture_unit, collect_journal_fatal,
}
use cc_rms_mqtt_monitor.Collect.Station.{Collected, log_fatal, with_journal, collect_station}

-- an error that is counted has its text
abbrev Told : Fatal → Type 0
Told f = (0 < f.fatal_error_count) × (is_some f.last_error ≡ true)

line_keeps :
    (p : Patterns) (line : String) (after : List String) (f : Fatal)
    → Told f
    → Told (fatal_line p line after f)
unfolding fatal_line
line_keeps p line after f h = ground (arith, h)

lines_keep :
    (p : Patterns) (lines : List String) (f : Fatal) → Told f → Told (fatal_lines p lines f)
unfolding fatal_lines
lines_keep p [] f h = h
lines_keep p (line ∷ lines) f h =
    lines_keep p lines (fatal_line p line lines f) (line_keeps p line lines f h)

line_tells :
    (p : Patterns) (line : String) (after : List String) (f : Fatal)
    → fatal_match p line ≡ true
    → Told (fatal_line p line after f)
unfolding fatal_line
line_tells p line after f h = rw h (omega arith, refl)

lines_tell :
    (p : Patterns) (lines : List String) (f : Fatal)
    → any (fatal_match p) lines ≡ true
    → Told (fatal_lines p lines f)
unfolding fatal_lines any
lines_tell p [] f h = cc h
lines_tell p (line ∷ lines) f h = elim (Bool-cases (fatal_match p line)) [
  | inl fatal ↦ lines_keep p lines (fatal_line p line lines f) (line_tells p line lines f fatal)
  | inr fine ↦ lines_tell p lines (fatal_line p line lines f) (ground (arith, h, fine))
]

Told-found : (f : Fatal) → Told f → fatal_of f ≡ some f
unfolding fatal_of
Told-found f h = ground (arith, h)

with_journal_pos :
    (log f : Fatal) → 0 < f.fatal_error_count → 0 < (with_journal log (some f)).fatal_error_count
unfolding with_journal
with_journal_pos log f h = ground (arith, h)

journal-Told :
    (p : Patterns) (tail : String → List String) (station unit : String) (proc_unit : Option String)
    (cache : Dict String)
    → (capture_unit station proc_unit cache).0 ≡ some unit
    → any (fatal_match p) (tail unit) ≡ true
    → (f : Fatal) × ((collect_journal_fatal p tail station proc_unit cache).0 ≡ some f) × Told f
unfolding collect_journal_fatal scan_unit
journal-Told p tail station unit proc_unit cache known crash =
    let f = fatal_lines p (tail unit) (record { fatal_error_count = 0; last_error = none }) in
    let told =
      lines_tell p (tail unit) (record { fatal_error_count = 0; last_error = none }) crash in
    (f, ap (scan_unit p tail) known ∙ Told-found f told, told)

-- Where the journal's tail of the unit that is known for a station holds a fatal line, the record
-- of the station reports a fatal error, whatever the log shows and whether or not there is one, and
-- whether or not a process is left.
pub startup_crash_reported :
    (p : Patterns) (tail : String → List String) (station unit : String) (proc_unit : Option String)
    (cache : Dict String) (c : Collected)
    → (capture_unit station proc_unit cache).0 ≡ some unit
    → any (fatal_match p) (tail unit) ≡ true
    → c.journal ≡ (collect_journal_fatal p tail station proc_unit cache).0
    → 0 < (collect_station station c).metrics.fatal_error_count
unfolding collect_station
startup_crash_reported p tail station unit proc_unit cache c known crash ran =
    let (f, found, told) = journal-Told p tail station unit proc_unit cache known crash in
    subst (λ o. 0 < (with_journal (log_fatal c.logs) o).fatal_error_count) (sym (ran ∙ found))
      (with_journal_pos (log_fatal c.logs) f told.0)
