-- ===== src/BootMarker.antt =====
-- cc_mqtt_monitor/bootmarker.py: the marker that tells a power cut from a deliberate reboot.
-- Times are milliseconds of the wall clock.
pub mod Keeping
pub mod Lives
pub mod Shadow
use cc_rms_mqtt_monitor.Base.{
  ℕ, ◌+◌, ◌-◌, ◌/◌, String, Bool, true, false, not, ◌&&◌, Option, none, some, List, ltb, str_eq,
  if◌then◌else◌, some_and,
}
use cc_rms_mqtt_monitor.StateFiles.{Cell, read_first, write_first}

-- `other` is any other value of the key
pub data MarkerState : Type 0 where
  live shutdown stopped other : MarkerState

pub data Shutdown : Type 0 where
  clean unclean unknown : Shutdown

pub record Marker : Type 0 where
  pub boot_id : String
  pub state : MarkerState
  pub ts : ℕ
  pub last_shutdown : Option Shutdown
  pub last_shutdown_ts : Option ℕ

-- the marker files, and `_last_beat` of the process
pub record World : Type 0 where
  pub files : List (Cell Marker)
  pub last_beat : ℕ

abbrev pub heartbeat_s : ℕ
heartbeat_s = 120000

-- `_VERDICT_FOR_STATE.get(state, UNKNOWN)`
unfoldable pub verdict_for_state : MarkerState → Shutdown
verdict_for_state live = unclean
verdict_for_state shutdown = clean
verdict_for_state stopped = unknown
verdict_for_state other = unknown

-- `isinstance(rec, dict) and rec.get("boot_id")`
unfoldable pub has_boot_id : Marker → Bool
has_boot_id r = not (str_eq r.boot_id "")

unfoldable pub read : World → Option Marker
read w = read_first has_boot_id w.files

unfoldable pub write : Marker → World → World × Bool
write r w = let (files, done) = write_first r w.files in (record w { files = files }, done)

-- the marker of a new start: the verdict is carried over within a boot, and reached at a new one
unfoldable pub started : String → ℕ → Option Marker → Marker
unfolding verdict_for_state
started boot now none = record {
  boot_id = boot;
  state = live;
  ts = now;
  last_shutdown = none;
  last_shutdown_ts = none;
}
started boot now (some prev) =
    if str_eq prev.boot_id boot
    then record {
      boot_id = boot;
      state = live;
      ts = now;
      last_shutdown = prev.last_shutdown;
      last_shutdown_ts = prev.last_shutdown_ts;
    }
    else record {
      boot_id = boot;
      state = live;
      ts = now;
      last_shutdown = some (verdict_for_state prev.state);
      last_shutdown_ts = some prev.ts;
    }

-- The boot id is none where the kernel's cannot be read or is empty.
unfoldable pub start : Option String → ℕ → World → World
start none now w = w
start (some boot) now w = record ((write (started boot now (read w)) w).0) { last_beat = now }

-- the record of this boot, if `start` has run for it
unfoldable pub own : Option String → World → Option Marker
own none w = none
own (some boot) w = elim (read w) [
  | none ↦ none
  | some r ↦ if str_eq r.boot_id boot then some r else none
]

-- the write of a heartbeat, after which the beat counts only if it was written
beat : Option Marker → ℕ → World → World
beat none now w = w
beat (some r) now w =
    let (w', done) = write (record r { state = live; ts = now }) w in
    if done then record w' { last_beat = now } else w'

unfoldable pub heartbeat : Bool → Option String → ℕ → World → World
unfolding beat
heartbeat force boot now w =
    if not force && ltb now (w.last_beat + heartbeat_s) then w else beat (own boot w) now w

-- `stopping`: whether the system is shutting down
close : Option Marker → Bool → ℕ → World → World
close none stopping now w = w
close (some r) stopping now w =
    (write (record r { state = if stopping then shutdown else stopped; ts = now }) w).0

unfoldable pub stop : Option String → Bool → ℕ → World → World
unfolding close
stop boot stopping now w = close (own boot w) stopping now w

pub record Published : Type 0 where
  pub last_shutdown : Option Shutdown
  pub last_shutdown_age_s : Option ℕ

-- `max(0, round(now - ts))`, in whole seconds
unfoldable pub age_s : ℕ → ℕ → ℕ
age_s now ts = (now - ts + 500) / 1000

published : Option Marker → ℕ → Published
published none now = record { last_shutdown = none; last_shutdown_age_s = none }
published (some r) now = record {
  last_shutdown = r.last_shutdown;
  last_shutdown_age_s = elim r.last_shutdown [
    | none ↦ none
    | some v ↦ elim r.last_shutdown_ts [ none ↦ none | some ts ↦ some (age_s now ts) ]
  ];
}

unfoldable pub metrics : Option String → ℕ → World → Published
unfolding published
metrics boot now w = published (own boot w) now
