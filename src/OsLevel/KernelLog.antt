-- ===== src/OsLevel/KernelLog.antt =====
-- `scan_oom` and `scan_disk_errors` of cc_mqtt_monitor/oslevel.py, over the lines of the kernel log,
-- and the disks that matter (`_mount_device`, `_relevant_disks`, `_names_only_other_disks`).
-- The regular expressions, the age of a line and `redact` are inputs.
pub mod Attribution
use mathlib.Core.Option
use cc_rms_mqtt_monitor.Base.{
  ℕ, suc, ◌+◌, String, Bool, true, false, not, ◌&&◌, ◌||◌, Option, none, some, List, [], ◌∷◌, map,
  ltb, if◌then◌else◌, str_eq, contains, any, codes, length, has_prefix, append, rstrip_slash,
  is_some, or_else, ℤ,
}

pub record Patterns : Type 0 where
  -- the victim in a line of the form "Killed process", and in one of the form "oom-kill:"
  pub oom_killed : String → Option String
  pub oom_kill : String → Option String
  pub disk_err : String → Bool
  pub fs_readonly : String → Bool
  -- `_DEV_TOKEN_RE.findall`, and `_base_disk`
  pub dev_tokens : String → List String
  pub base_disk : String → String
  -- `_kloc_age_s`, and `redact(line.strip())[:300]`
  pub kloc_age_s : String → Option ℤ
  pub shown : String → String

pub record Oom : Type 0 where
  pub oom_kill_count : ℕ
  pub last_oom_victim : Option String
  pub last_oom_line : Option String
  pub oom_last_age_s : Option ℤ
  pub oom_note : Option String

abbrev pub no_oom : Oom
no_oom = record {
  oom_kill_count = 0;
  last_oom_victim = none;
  last_oom_line = none;
  oom_last_age_s = none;
  oom_note = none;
}

-- `_OOM_KILLED_RE.search(line) or _OOM_KILL_RE.search(line)`, the victim of the one that matched
unfoldable pub victim_of : Patterns → String → Option String
victim_of p line = if is_some (p.oom_killed line) then p.oom_killed line else p.oom_kill line

-- the later age, where the line has one
unfoldable pub later_age : Option ℤ → Option ℤ → Option ℤ
later_age none old = old
later_age (some a) old = some a

unfoldable pub note_kill : Patterns → String → Option String → Oom → Oom
note_kill p line none r = r
note_kill p line (some victim) r = record r {
  oom_kill_count = suc r.oom_kill_count;
  last_oom_victim = some victim;
  last_oom_line = some (p.shown line);
  oom_last_age_s = later_age (p.kloc_age_s line) r.oom_last_age_s;
}

unfoldable pub oom_lines : Patterns → List String → Oom → Oom
oom_lines p [] r = r
oom_lines p (line ∷ lines) r = oom_lines p lines (note_kill p line (victim_of p line) r)

-- `if note`
unfoldable pub is_note : Option String → Bool
is_note none = false
is_note (some s) = not (str_eq s "")

-- `scan_oom` with the log's lines and note passed in
unfoldable pub scan_oom : Patterns → List String → Option String → Oom
scan_oom p lines note =
    if is_note note then record no_oom { oom_note = note } else oom_lines p lines no_oom

-- The loop of `_mount_device` over the mounts, a device and its mount point each; the length starts
-- below that of any text, so that the first match counts.
unfoldable pub best_mount : String → Option String → List (String × String) → ℕ → Option String
best_mount real best [] len = best
best_mount real best ((dev, mnt) ∷ rest) len =
    let inside = str_eq real mnt || has_prefix (append (rstrip_slash mnt) "/") real in
    let longer = ltb len (suc (length (codes mnt))) in
    let taken = has_prefix "/dev/" dev && inside && longer in
    best_mount real (if taken then some dev else best) rest
      (if taken then suc (length (codes mnt)) else len)

-- `node` is the base name of a device's real path
unfoldable pub mount_device :
    Patterns
    → (String → String)
    → (String → String)
    → Option (List (String × String))
    → String
    → Option String
mount_device p realpath node none path = none
mount_device p realpath node (some mounts) path =
    Option.map (λ dev. p.base_disk (node dev)) (best_mount (realpath path) none mounts 0)

unfoldable pub add_disk : Option String → List String → List String
add_disk none disks = disks
add_disk (some d) disks = if str_eq d "" then disks else d ∷ disks

-- `_relevant_disks`, by the device of a path
unfoldable pub disks_of : (String → Option String) → List String → List String
disks_of device [] = []
disks_of device (path ∷ paths) = add_disk (device path) (disks_of device paths)

unfoldable pub relevant_disks : (String → Option String) → List String → List String
relevant_disks device data_paths = disks_of device ("/" ∷ data_paths)

unfoldable pub names_only_other_disks : Patterns → List String → String → Bool
names_only_other_disks p relevant line =
    let devs = map p.base_disk (p.dev_tokens line) in
    ltb 0 (length devs) && not (any (λ d. contains d relevant) devs)

pub record DiskErrors : Type 0 where
  pub disk_error_count : ℕ
  pub last_disk_error : Option String
  pub disk_fs_readonly : Bool
  pub disk_error_note : Option String
  pub disk_error_other_dev_count : ℕ

abbrev pub no_disk_errors : DiskErrors
no_disk_errors = record {
  disk_error_count = 0;
  last_disk_error = none;
  disk_fs_readonly = false;
  disk_error_note = none;
  disk_error_other_dev_count = 0;
}

unfoldable pub disk_line : Patterns → List String → String → DiskErrors → DiskErrors
disk_line p relevant line r =
    if not (p.disk_err line)
    then r
    else if ltb 0 (length relevant) && names_only_other_disks p relevant line
    then record r { disk_error_other_dev_count = suc r.disk_error_other_dev_count }
    else record r {
      disk_error_count = suc r.disk_error_count;
      last_disk_error = some (p.shown line);
      disk_fs_readonly = p.fs_readonly line || r.disk_fs_readonly;
    }

unfoldable pub disk_lines : Patterns → List String → List String → DiskErrors → DiskErrors
disk_lines p relevant [] r = r
disk_lines p relevant (line ∷ lines) r = disk_lines p relevant lines (disk_line p relevant line r)

-- the set of disks that scopes the scan
unfoldable pub scope : (String → Option String) → Option (List String) → List String
scope device none = []
scope device (some paths) = relevant_disks device paths

-- `scan_disk_errors` with the log's lines and note passed in
unfoldable pub scan_disk_errors :
    Patterns
    → (String → Option String)
    → List String
    → Option String
    → Option (List String)
    → DiskErrors
scan_disk_errors p device lines note data_paths =
    if is_note note
    then record no_disk_errors { disk_error_note = note }
    else disk_lines p (scope device data_paths) lines no_disk_errors
