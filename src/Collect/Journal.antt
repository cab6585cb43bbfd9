-- ===== src/Collect/Journal.antt =====
-- `_capture_unit` and `collect_journal_fatal` of cc_mqtt_monitor/collect.py: crashes at startup that
-- only reach the systemd journal. The unit of a process and the journal's tail are inputs.
use cc_rms_mqtt_monitor.Base.{
  ℕ, suc, String, Option, none, some, List, [], ◌∷◌, ltb, if◌then◌else◌, Dict, lookup, insert,
}
use cc_rms_mqtt_monitor.Collect.Logs.{Patterns, fatal_match, extract_traceback}

-- the unit, and the cache of units afterwards; a unit that was seen is remembered
unfoldable pub capture_unit : String → Option String → Dict String → Option String × Dict String
capture_unit station none cache = (lookup station cache, cache)
capture_unit station (some unit) cache = (some unit, insert station unit cache)

pub record Fatal : Type 0 where
  pub fatal_error_count : ℕ
  pub last_error : Option String

unfoldable pub fatal_text : Patterns → String → List String → String
fatal_text p line after =
    if p.traceback line
    then p.redact (extract_traceback p line after)
    else p.clip (p.redact (p.strip line))

unfoldable pub fatal_line : Patterns → String → List String → Fatal → Fatal
fatal_line p line after f =
    if fatal_match p line
    then record {
      fatal_error_count = suc f.fatal_error_count;
      last_error = some (fatal_text p line after);
    }
    else f

unfoldable pub fatal_lines : Patterns → List String → Fatal → Fatal
fatal_lines p [] f = f
fatal_lines p (line ∷ lines) f = fatal_lines p lines (fatal_line p line lines f)

-- none is the source's empty dict
unfoldable pub fatal_of : Fatal → Option Fatal
fatal_of f = if ltb 0 f.fatal_error_count then some f else none

unfoldable pub scan_unit : Patterns → (String → List String) → Option String → Option Fatal
scan_unit p tail none = none
scan_unit p tail (some u) =
    fatal_of (fatal_lines p (tail u) (record { fatal_error_count = 0; last_error = none }))

unfoldable pub collect_journal_fatal :
    Patterns
    → (String → List String)
    → String
    → Option String
    → Dict String
    → Option Fatal × Dict String
collect_journal_fatal p tail station proc_unit cache =
    let (unit, cache') = capture_unit station proc_unit cache in (scan_unit p tail unit, cache')
