-- ===== src/Collect/Events.antt =====
-- `collect_capture_events` of cc_mqtt_monitor/collect.py: the counters of the current session and
-- the processing episode, from the lines of the whole log.
-- The regular expressions are inputs: what each finds in a line, a number for a group of digits.
-- Times are in milliseconds.
pub mod Sessions
pub mod Episodes
use mathlib.Core.Option
use cc_rms_mqtt_monitor.Base.{
  ℕ, suc, ◌+◌, ◌-◌, ◌/◌, ◌*◌, max, String, Bool, true, false, ◌&&◌, Option, none, some, List, [],
  ◌∷◌, ◌++◌, ltb, ◌==◌, if◌then◌else◌, is_some, length, basename, rstrip_slash, str_eq,
}
use cc_rms_mqtt_monitor.StateFiles.{Cell}
use cc_rms_mqtt_monitor.Collect.Disconnects.{classify_disconnects, disc_history}

-- the patterns that the scan searches for in a line
pub record Patterns : Type 0 where
  pub transition : String → Bool
  pub proc_end : String → Bool
  pub proc_reprocess_start : String → Option String
  pub proc_dawn_start : String → Bool
  pub data_dir : String → Option String
  pub backend_gst : String → Bool
  pub backend_cv2 : String → Bool
  pub stream_drop : String → Bool
  pub wd_restart : String → Option ℕ
  pub meteor : String → Option ℕ
  pub star_overflow : String → Option ℕ
  pub stars : String → Option ℕ
  -- `_parse_log_ts`
  pub log_ts : String → Option ℕ

-- `stars_recent`: a number, or ">N" where the frame held too many candidates
pub data Stars : Type 0 where
  counted : ℕ → Stars
  more_than : ℕ → Stars

pub data ProcKind : Type 0 where
  reprocess : ProcKind
  dawn : ProcKind

-- what is counted since the session began
pub record Counters : Type 0 where
  pub disc : ℕ
  pub wd : ℕ
  pub met : ℕ
  pub disc_ts : List ℕ

pub record Episode : Type 0 where
  pub kind : ProcKind
  pub dir : Option String
  pub ts : Option ℕ

-- the variables of the loop; `proc_kind`, `proc_dir` and `proc_ts` are set and unset together
pub record Scan : Type 0 where
  pub session : Counters
  pub proc : Option Episode
  pub latest_dir : Option String
  pub backend : Option String
  pub overflow_cap : Option ℕ
  pub latest_stars : Option Stars

abbrev pub no_counters : Counters
no_counters = record { disc = 0; wd = 0; met = 0; disc_ts = [] }

abbrev pub no_scan : Scan
no_scan = record {
  session = no_counters;
  proc = none;
  latest_dir = none;
  backend = none;
  overflow_cap = none;
  latest_stars = none;
}

unfoldable pub log_name : String → String
log_name path = basename (rstrip_slash path)

-- keeps the first marker of a dawn run
unfoldable pub start_dawn : Option String → Option ℕ → Option Episode → Episode
start_dawn dir ts none = record { kind = dawn; dir = dir; ts = ts }
start_dawn dir ts (some e) = elim e.kind [
  | dawn ↦ e
  | reprocess ↦ record { kind = dawn; dir = dir; ts = ts }
]

unfoldable pub add_time : Option ℕ → List ℕ → List ℕ
add_time none ts = ts
add_time (some t) ts = ts ++ t ∷ []

unfoldable pub count_drop : Option ℕ → Counters → Counters
count_drop ts c = record c { disc = suc c.disc; disc_ts = add_time ts c.disc_ts }

-- `">%d" % overflow_cap if (overflow_cap and n == 0) else n`
unfoldable pub star_count : Option ℕ → ℕ → Stars
star_count none n = counted n
star_count (some cap) n = if ltb 0 cap && n == 0 then more_than cap else counted n

-- the searches for a number, the last of a line's
unfoldable pub scan_numbers : Patterns → String → Scan → Scan
scan_numbers p line s = elim (p.wd_restart line) [
  | some n ↦ record s { session = record s.session { wd = max s.session.wd n } }
  | none ↦ elim (p.meteor line) [
    | some n ↦ record s { session = record s.session { met = s.session.met + n } }
    | none ↦ elim (p.star_overflow line) [
      | some cap ↦ record s { overflow_cap = some cap }
      | none ↦ elim (p.stars line) [
        | some n ↦ record s {
          latest_stars = some (star_count s.overflow_cap n);
          overflow_cap = none;
        }
        | none ↦ s
      ]
    ]
  ]
]

-- the data directory, the backend and the disconnects
unfoldable pub scan_capture : Patterns → String → Scan → Scan
scan_capture p line s = elim (p.data_dir line) [
  | some path ↦ record s { latest_dir = some (log_name path) }
  | none ↦
      let numbers = scan_numbers p line s in
      if p.backend_gst line
      then record s { backend = some "gst" }
      else if p.backend_cv2 line
      then record s { backend = some "cv2" }
      else if p.stream_drop line
      then record s { session = count_drop (p.log_ts line) s.session }
      else numbers
]

-- the body of the loop
unfoldable pub scan_line : Patterns → String → Scan → Scan
scan_line p line s =
    if p.transition line
    then record s { session = no_counters }
    else if p.proc_end line
    then record s { proc = none }
    else elim (p.proc_reprocess_start line) [
      | some path ↦ record s {
        proc = some (record { kind = reprocess; dir = some (log_name path); ts = p.log_ts line });
      }
      | none ↦
          if p.proc_dawn_start line
          then record s { proc = some (start_dawn s.latest_dir (p.log_ts line) s.proc) }
          else scan_capture p line s
    ]

unfoldable pub scan_log : Patterns → List String → Scan → Scan
scan_log p [] s = s
scan_log p (line ∷ lines) s = scan_log p lines (scan_line p line s)

pub record CaptureEvents : Type 0 where
  pub disconnects_session : ℕ
  pub disconnects_scheduled_session : ℕ
  pub disconnects_unplanned_session : ℕ
  pub watchdog_restarts_session : ℕ
  pub meteors_session : ℕ
  pub stars_recent : Option Stars
  pub capture_backend : Option String
  pub processing_active : Bool
  pub processing_kind : Option ProcKind
  pub processing_dir : Option String
  pub processing_age_s : Option ℕ

-- `round(max(0.0, now - proc_ts), 1)`
unfoldable pub proc_age : ℕ → Option ℕ → Option ℕ
proc_age now none = none
proc_age now (some ts) = some (((now - ts) + 50) / 100 * 100)

unfoldable pub dir_of : Option Episode → Option String
dir_of none = none
dir_of (some e) = e.dir

unfoldable pub start_of : Option Episode → Option ℕ
start_of none = none
start_of (some e) = e.ts

-- what is published of the variables after the loop, by the disconnects of earlier days
unfoldable pub events_of : ℕ → List ℕ → Scan → CaptureEvents
events_of now history s =
    let (sched, unpl) = classify_disconnects s.session.disc_ts history in
    record {
      disconnects_session = s.session.disc;
      disconnects_scheduled_session = sched;
      disconnects_unplanned_session = unpl + (s.session.disc - length s.session.disc_ts);
      watchdog_restarts_session = s.session.wd;
      meteors_session = s.session.met;
      stars_recent = s.latest_stars;
      capture_backend = s.backend;
      processing_active = is_some s.proc;
      processing_kind = Option.map (λ (e : Episode). e.kind) s.proc;
      processing_dir = dir_of s.proc;
      processing_age_s = proc_age now (start_of s.proc);
    }

-- The log's lines where a log is there and can be read, and the station's disconnect files.
unfoldable pub collect_capture_events :
    Patterns
    → ℕ
    → String
    → Option (List String)
    → List (Cell (List ℕ))
    → Option CaptureEvents × List (Cell (List ℕ))
collect_capture_events p now station none cells = (none, cells)
collect_capture_events p now station (some lines) cells =
    let s = scan_log p lines no_scan in
    let (earlier, cells') = disc_history s.session.disc_ts now cells in
    if str_eq station ""
    then (some (events_of now [] s), cells)
    else (some (events_of now earlier s), cells')
