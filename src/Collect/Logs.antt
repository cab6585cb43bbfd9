-- ===== src/Collect/Logs.antt =====
-- `collect_logs` and `collect_journal_fatal` of cc_mqtt_monitor/collect.py: the newest log's tail.
-- The regular expressions and `redact` are inputs; times are in milliseconds and buffer fills in
-- thousandths of a percent.
pub mod Window
pub mod Silence
use mathlib.Core.Option
use cc_rms_mqtt_monitor.Base.{
  ℕ, zero, suc, ◌+◌, ◌-◌, ◌/◌, ◌*◌, max, String, Bool, true, false, not, ◌&&◌, ◌||◌, Option, none,
  some, List, [], ◌∷◌, ◌++◌, ltb, leb, ◌==◌, if◌then◌else◌, is_some, length, or_else, str_eq,
  push_all,
}
use cc_rms_mqtt_monitor.Collect.Buffer.{Point, max_leadup, max_recent}

-- what `_BUFFER_RE` finds in a line
pub record Buffer : Type 0 where
  pub fill : ℕ
  pub dropped_10min : ℕ
  pub dropped_session : ℕ

-- The patterns of a line. `fatal` says whether a fatal pattern that is no loader diagnostic
-- matches, `loader` whether a loader diagnostic does, `info_level` whether the line is of a level
-- that demotes one; `translation` gives the numbers of an alignment report that parse.
pub record Patterns : Type 0 where
  pub fatal : String → Bool
  pub loader : String → Bool
  pub info_level : String → Bool
  pub warning : String → Bool
  pub ignore : String → Bool
  pub translation : String → Option (ℕ × ℕ × ℕ)
  pub watchdog : String → Bool
  pub buffer : String → Option Buffer
  pub pipeline_build : String → Bool
  pub decoder_err : String → Bool
  pub daytime_mode : String → Option Bool
  pub traceback : String → Bool
  -- `_LOG_TS_RE.match`, and `_parse_log_ts`
  pub ts_prefix : String → Bool
  pub log_ts : String → Option ℕ
  -- `line.strip()`, `redact`, and `s[:300]`
  pub strip : String → String
  pub redact : String → String
  pub clip : String → String

-- whether `_fatal_match` finds a pattern
unfoldable pub fatal_match : Patterns → String → Bool
fatal_match p line = p.fatal line || p.loader line && not (p.info_level line)

-- the absolute values of the shifts against the limit
unfoldable pub benign_by_value : Patterns → String → Bool
benign_by_value p line = elim (p.translation line) [
  | none ↦ false
  | some (x, y, limit) ↦ leb x limit && leb y limit
]

-- the lines of a traceback after its first
unfoldable pub block_after : Patterns → List String → List String
block_after p [] = []
block_after p (l ∷ ls) =
    let rest = block_after p ls in if str_eq (p.strip l) "" || p.ts_prefix l then [] else l ∷ rest

-- the last line that is not blank, stripped
unfoldable pub last_shown : Patterns → String → List String → String
last_shown p found [] = found
last_shown p found (l ∷ ls) = last_shown p (if str_eq (p.strip l) "" then found else p.strip l) ls

-- `_extract_traceback` for the lines from the "Traceback" line on
unfoldable pub extract_traceback : Patterns → String → List String → String
extract_traceback p l after = last_shown p (p.strip l) (block_after p after)

-- the variables of the loop and the keys of `result` that it sets
pub record LogScan : Type 0 where
  pub last_ts : Option ℕ
  pub fatal_error_count : ℕ
  pub last_error : Option String
  pub warning_count : ℕ
  pub last_warning : Option String
  pub last_watchdog_event : Option String
  pub buffer_fill_pct : Option ℕ
  pub dropped_frames_10min : Option ℕ
  pub dropped_frames_session : Option ℕ
  pub buffer_points : List Point
  pub pipeline_reconnects : ℕ
  pub decoder_errors : ℕ
  -- whether it is day
  pub rms_mode : Option Bool

abbrev pub no_log : LogScan
no_log = record {
  last_ts = none;
  fatal_error_count = 0;
  last_error = none;
  warning_count = 0;
  last_warning = none;
  last_watchdog_event = none;
  buffer_fill_pct = none;
  dropped_frames_10min = none;
  dropped_frames_session = none;
  buffer_points = [];
  pipeline_reconnects = 0;
  decoder_errors = 0;
  rms_mode = none;
}

-- `cutoff is None or last_ts is None or last_ts >= cutoff`
unfoldable pub in_window : Option ℕ → Option ℕ → Bool
in_window none ts = true
in_window (some c) none = true
in_window (some c) (some t) = leb c t

unfoldable pub stamp : Option ℕ → LogScan → LogScan
stamp none s = s
stamp (some t) s = record s { last_ts = some t }

unfoldable pub count_fatal : Patterns → String → List String → LogScan → LogScan
count_fatal p line after s = record s {
  fatal_error_count = suc s.fatal_error_count;
  last_error = some (
      if p.traceback line
      then p.redact (extract_traceback p line after)
      else p.clip (p.redact (p.strip line)));
}

unfoldable pub is_warning : Patterns → String → Bool
is_warning p line =
    not (fatal_match p line)
    && p.warning line
    && not (p.ignore line)
    && not (benign_by_value p line)

unfoldable pub count_warning : Patterns → String → LogScan → LogScan
count_warning p line s = record s {
  warning_count = suc s.warning_count;
  last_warning = some (p.clip (p.redact (p.strip line)));
}

unfoldable pub count_stream : Patterns → String → LogScan → LogScan
count_stream p line s =
    if p.pipeline_build line
    then record s { pipeline_reconnects = suc s.pipeline_reconnects }
    else if p.decoder_err line
    then record s { decoder_errors = suc s.decoder_errors }
    else s

-- the alerts of a line, where it lies in the time window
unfoldable pub scan_alerts : Patterns → String → List String → LogScan → LogScan
scan_alerts p line after s =
    let s1 = if fatal_match p line then count_fatal p line after s else s in
    let s2 = if is_warning p line then count_warning p line s1 else s1 in
    let s3 =
      if p.watchdog line
      then record s2 { last_watchdog_event = some (p.clip (p.redact (p.strip line))) }
      else s2 in
    count_stream p line s3

abbrev pub point_of : Option ℕ → Buffer → Point
point_of ts b = record { ts = ts; fill = b.fill; session = b.dropped_session }

unfoldable pub add_point : Option ℕ → Option Buffer → LogScan → LogScan
add_point ts none s = s
add_point ts (some b) s = record s {
  buffer_fill_pct = some b.fill;
  dropped_frames_10min = some b.dropped_10min;
  dropped_frames_session = some b.dropped_session;
  buffer_points = s.buffer_points ++ point_of ts b ∷ [];
}

unfoldable pub note_mode : Option Bool → LogScan → LogScan
note_mode none s = s
note_mode (some day) s = record s { rms_mode = some day }

-- the body of the loop, with the lines after it
unfoldable pub scan_line : Patterns → Option ℕ → String → List String → LogScan → LogScan
scan_line p cutoff line after s =
    let s0 = stamp (p.log_ts line) s in
    let s1 = if in_window cutoff s0.last_ts then scan_alerts p line after s0 else s0 in
    note_mode (p.daytime_mode line) (add_point (p.log_ts line) (p.buffer line) s1)

unfoldable pub scan_lines : Patterns → Option ℕ → List String → LogScan → LogScan
scan_lines p cutoff [] s = s
scan_lines p cutoff (line ∷ lines) s = scan_lines p cutoff lines (scan_line p cutoff line lines s)

-- `(now - window_s) if window_s else None`; no timestamp lies before 0
unfoldable pub cutoff_of : ℕ → Option ℕ → Option ℕ
cutoff_of now none = none
cutoff_of now (some w) = if w == 0 then none else some (now - w)

-- what is published of the log besides the counters of the loop
pub record LogMetrics : Type 0 where
  pub scanned : LogScan
  pub buffer_fill_max_recent : Option ℕ
  pub buffer_fill_max_leadup : Option ℕ

-- The tail of the newest log, where there is one.
unfoldable pub collect_logs : Patterns → ℕ → Option ℕ → Option (List String) → LogMetrics
collect_logs p now window_s none = record {
  scanned = no_log;
  buffer_fill_max_recent = none;
  buffer_fill_max_leadup = none;
}
collect_logs p now window_s (some lines) =
    let s = scan_lines p (cutoff_of now window_s) lines no_log in
    record {
      scanned = s;
      buffer_fill_max_recent = max_recent s.buffer_points;
      buffer_fill_max_leadup = max_leadup s.buffer_points;
    }
