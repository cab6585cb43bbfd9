-- ===== src/Tests/Kernel.antt =====
-- The signals of the host, on concrete counters, lines of the kernel log and links.
use cc_rms_mqtt_monitor.Base.{
  ℕ, ◌+◌, ◌<◌, ◌≡◌, ◌⊎◌, ◌↔◌, refl, String, true, false, ◌&&◌, Option, none, some, List, [], ◌∷◌,
  arith, str_eq, contains, any, filter, length, All, sum, if◌then◌else◌,
}
use cc_rms_mqtt_monitor.Health.Links.{LinkRule, slow_links}
use cc_rms_mqtt_monitor.OsLevel.Rates.{collect_cpu_pressure}
use cc_rms_mqtt_monitor.OsLevel.Rates.Bounds.{IsPercentage, Grows, pressure_bounds}
use cc_rms_mqtt_monitor.OsLevel.KernelLog.{Patterns, is_note, scan_disk_errors, scope}
use cc_rms_mqtt_monitor.OsLevel.KernelLog.Attribution.{is_ours, disk_errors_attributed}
use cc_rms_mqtt_monitor.OsLevel.Ethtool.{Line, cut}
use cc_rms_mqtt_monitor.OsLevel.NicLink.{Iface, read_nic_link}
use cc_rms_mqtt_monitor.OsLevel.NicLink.Expected.{links_of, WatchedIsFine, auto_links_fine}

abbrev first : List ℕ
first = 100 ∷ 0 ∷ 50 ∷ 800 ∷ 20 ∷ 0 ∷ 0 ∷ 5 ∷ []

abbrev second : List ℕ
second = 160 ∷ 0 ∷ 60 ∷ 820 ∷ 25 ∷ 0 ∷ 0 ∷ 10 ∷ []

grown : Grows first second
grown = (
  omega arith,
  (
    omega arith,
    (omega arith, (omega arith, (omega arith, (omega arith, (omega arith, (omega arith, tt)))))),
  ),
)

more : sum first < sum second
unfolding sum
more = omega arith

pressure_bounds_example :
    let p = (collect_cpu_pressure (some second) (collect_cpu_pressure (some first) none).1).0 in
    IsPercentage p.cpu_busy_pct × IsPercentage p.cpu_iowait_pct × IsPercentage p.cpu_steal_pct
pressure_bounds_example = pressure_bounds first second none grown more

-- every line is about a failing disk, the one that it names
abbrev kernel_log : Patterns
kernel_log = record {
  oom_killed = λ line. none;
  oom_kill = λ line. none;
  disk_err = λ line. true;
  fs_readonly = λ line. str_eq line "sda";
  dev_tokens = λ line. line ∷ [];
  base_disk = λ dev. dev;
  kloc_age_s = λ line. none;
  shown = λ line. line;
}

abbrev errors : List String
errors = "sda" ∷ "sdb" ∷ []

abbrev device : String → Option String
device path = some "sda"

no_note : is_note none ≡ false
unfolding is_note
no_note = refl

disk_errors_attributed_example :
    let d = scan_disk_errors kernel_log device errors none (some []) in
    let relevant = scope device (some []) in
    (d.disk_error_count ≡ length (filter (is_ours kernel_log relevant) errors))
    × (d.disk_error_count + d.disk_error_other_dev_count
        ≡ length (filter kernel_log.disk_err errors))
    × (d.disk_fs_readonly
        ≡ any (λ line. is_ours kernel_log relevant line && str_eq line "sda") errors)
    × ((line : String)
        → (is_ours kernel_log relevant line ≡ true) ↔ (
            (true ≡ true)
            × ((length relevant ≡ 0)
                ⊎ (length (kernel_log.dev_tokens line) ≡ 0)
                ⊎ (any (λ d. contains d relevant) (line ∷ []) ≡ true))))
disk_errors_attributed_example =
    disk_errors_attributed kernel_log device errors none (some []) no_note

-- a gigabit link that runs at 100
abbrev ifaces : List Iface
ifaces =
    record { name = "eth0"; speed = some 100; duplex = some "full"; operstate = some "up" }
    ∷ record { name = "lo"; speed = none; duplex = none; operstate = none }
    ∷ []

abbrev ethtool : String → Option (List Line)
ethtool name = some (
    cut "Supported link modes" "1000" "1000"
    ∷ cut "Link partner advertised link modes" "1000" "1000"
    ∷ [])

abbrev modes : String → List ℕ
modes text = if str_eq text "1000" then 1000 ∷ [] else []

auto_links_fine_example :
    (slow_links LinkRule.auto (links_of (read_nic_link modes ethtool none ifaces)) ≡ [])
    ↔ All (WatchedIsFine modes ethtool none) ifaces
auto_links_fine_example = auto_links_fine modes ethtool none ifaces
