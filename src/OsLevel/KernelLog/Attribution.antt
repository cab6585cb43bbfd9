-- ===== src/OsLevel/KernelLog/Attribution.antt =====
-- Which lines of the kernel log `scan_disk_errors` of cc_mqtt_monitor/oslevel.py counts.
use cc_rms_mqtt_monitor.Base.{
  ◌+◌, ◌≡◌, ◌⊎◌, ◌↔◌, refl, String, Bool, true, false, not, ◌&&◌, ◌||◌, Option, List, [], ◌∷◌, map,
  arith, ltb, contains, any, length, length-map, filter,
}
use cc_rms_mqtt_monitor.OsLevel.KernelLog.{
  Patterns, DiskErrors, names_only_other_disks, disk_line, disk_lines, is_note, scope,
  scan_disk_errors, no_disk_errors,
}

-- a line about a failing disk that is counted against the station
abbrev pub is_ours : Patterns → List String → String → Bool
is_ours p relevant line =
    p.disk_err line && not (ltb 0 (length relevant) && names_only_other_disks p relevant line)

-- one that is counted for another device
abbrev pub is_other : Patterns → List String → String → Bool
is_other p relevant line =
    p.disk_err line && (ltb 0 (length relevant) && names_only_other_disks p relevant line)

lines_counted :
    (p : Patterns) (relevant lines : List String) (r : DiskErrors)
    → let d = disk_lines p relevant lines r in
      (d.disk_error_count ≡ r.disk_error_count + length (filter (is_ours p relevant) lines))
      × (d.disk_error_other_dev_count
          ≡ r.disk_error_other_dev_count + length (filter (is_other p relevant) lines))
      × (d.disk_fs_readonly
          ≡ any (λ line. is_ours p relevant line && p.fs_readonly line) lines || r.disk_fs_readonly)
unfolding disk_lines disk_line filter any
lines_counted p relevant [] r = (omega arith, omega arith, refl)
lines_counted p relevant (line ∷ lines) r =
    ground (arith, lines_counted p relevant lines (disk_line p relevant line r))

adds_up :
    (p : Patterns) (relevant lines : List String)
    → length (filter (is_ours p relevant) lines) + length (filter (is_other p relevant) lines)
      ≡ length (filter p.disk_err lines)
unfolding filter
adds_up p relevant [] = omega arith
adds_up p relevant (line ∷ lines) = ground (arith, adds_up p relevant lines)

-- Without a note the scan counts every line about a failing disk once, for the station or for
-- another device; it is for the station exactly where no disk is known to matter, or the line names
-- no device, or it names one that matters; and the file system is reported to be read-only exactly
-- where a line that is counted for the station says so.
pub disk_errors_attributed :
    (p : Patterns) (device : String → Option String) (lines : List String)
    (log_note : Option String) (data_paths : Option (List String))
    → is_note log_note ≡ false
    → let d = scan_disk_errors p device lines log_note data_paths in
      let relevant = scope device data_paths in
      (d.disk_error_count ≡ length (filter (is_ours p relevant) lines))
      × (d.disk_error_count + d.disk_error_other_dev_count ≡ length (filter p.disk_err lines))
      × (d.disk_fs_readonly ≡ any (λ line. is_ours p relevant line && p.fs_readonly line) lines)
      × ((line : String)
          → (is_ours p relevant line ≡ true) ↔ (
              (p.disk_err line ≡ true)
              × ((length relevant ≡ 0)
                  ⊎ (length (p.dev_tokens line) ≡ 0)
                  ⊎ (any (λ d. contains d relevant) (map p.base_disk (p.dev_tokens line)) ≡ true))))
unfolding scan_disk_errors names_only_other_disks
disk_errors_attributed p device lines log_note data_paths clear =
    let relevant = scope device data_paths in
    let (ours, other, readonly) = lines_counted p relevant lines no_disk_errors in
    rw clear (
      omega (arith, ours),
      omega (arith, ours, other, adds_up p relevant lines),
      ground (arith, readonly),
      λ line. ground (arith, length-map p.base_disk (p.dev_tokens line)),
    )
