-- ===== src/OsLevel/Rates.antt =====
-- The rates of cc_mqtt_monitor/oslevel.py: `collect_udp_errors`, `collect_nic_errors`,
-- `collect_ip_reasm` and `collect_cpu_pressure`, from the counters and the samples of the cycle
-- before. Clocks are in milliseconds, rates and percentages in thousandths.
pub mod Bounds
use cc_rms_mqtt_monitor.Base.{
  ◌≤ℤ◌, lt→ltb, ℕ, zero, suc, ◌+◌, ◌-◌, ◌*◌, ◌/◌, ◌≤◌, ◌<◌, ◌≡◌, ◌⊎◌, ◌↔◌, inl, inr, refl, Bool,
  true, false, ◌&&◌, Option, none, some, List, [], ◌∷◌, arith, Bool-cases, ltb, leb, if◌then◌else◌,
  ℤ, pos, negsuc, sub_ℕ, is_some, tenths, sum,
}

-- `_UDP_LAST`, `_NIC_LAST` and `_IP_REASM_LAST` where they hold a sample
pub record Sample : Type 0 where
  pub count : ℕ
  pub mono : ℕ

-- the growth per minute since the sample
unfoldable pub per_minute : ℕ → ℕ → Option Sample → Option ℕ
per_minute count now none = none
per_minute count now (some last) =
    if ltb last.mono now && leb last.count count
    then some (tenths ((count - last.count) * 60000) (now - last.mono))
    else none

-- the rate of a counter, and its sample afterwards; a counter that cannot be read leaves it
unfoldable pub collect_rate : Option ℕ → ℕ → Option Sample → Option ℕ × Option Sample
collect_rate none now last = (none, last)
collect_rate (some count) now last =
    (per_minute count now last, some (record { count = count; mono = now }))

pub record UdpErrors : Type 0 where
  pub udp_rcvbuf_errors : Option ℕ
  pub udp_in_datagrams : Option ℕ
  pub udp_rcvbuf_errors_per_min : Option ℕ
  -- in ten thousandths of a percent
  pub udp_rcvbuf_error_pct : Option ℕ
  pub udp_rmem_max : Option ℕ

-- `round(err / dgrams * 100.0, 4)`
unfoldable pub error_pct : Option ℕ → Option ℕ → Option ℕ
error_pct none dgrams = none
error_pct (some err) none = none
error_pct (some err) (some d) = if ltb 0 d then some ((2000000 * err + d) / (2 * d)) else none

unfoldable pub collect_udp_errors :
    Option ℕ × Option ℕ → Option ℕ → ℕ → Option Sample → UdpErrors × Option Sample
collect_udp_errors (err, dgrams) rmem_max now last =
    let (rate, last') = collect_rate err now last in
    (
      record {
        udp_rcvbuf_errors = err;
        udp_in_datagrams = dgrams;
        udp_rcvbuf_errors_per_min = rate;
        udp_rcvbuf_error_pct = error_pct err dgrams;
        udp_rmem_max = rmem_max;
      },
      last',
    )

-- the fields of /proc/stat's first line that are read, with the sum of all
pub record CpuTimes : Type 0 where
  pub total : ℕ
  pub idle : ℕ
  pub iowait : ℕ
  pub steal : ℕ

-- `vals[i] if len(vals) > i else 0`
unfoldable pub field_at : ℕ → List ℕ → ℕ
field_at i [] = 0
field_at zero (v ∷ vs) = v
field_at (suc i) (v ∷ vs) = field_at i vs

unfoldable pub cpu_times : List ℕ → CpuTimes
cpu_times vals = record {
  total = sum vals;
  idle = field_at 3 vals;
  iowait = field_at 4 vals;
  steal = field_at 7 vals;
}

pub record CpuPressure : Type 0 where
  pub cpu_busy_pct : Option ℤ
  pub cpu_iowait_pct : Option ℤ
  pub cpu_steal_pct : Option ℤ

-- `round(n / d * 100.0, 1)` of a signed n
unfoldable pub percent : ℤ → ℕ → ℤ
percent (pos n) d = pos (tenths (n * 100) d)
percent (negsuc n) d = sub_ℕ 0 (tenths ((n + 1) * 100) d)

-- the percentages where the total has grown since the sample
unfoldable pub pressure_of : CpuTimes → Option CpuTimes → CpuPressure
pressure_of c none = record { cpu_busy_pct = none; cpu_iowait_pct = none; cpu_steal_pct = none }
pressure_of c (some l) =
    let d_total = c.total - l.total in
    if ltb l.total c.total
    then record {
      cpu_busy_pct =
          some (percent (sub_ℕ (d_total + (l.idle + l.iowait)) (c.idle + c.iowait)) d_total);
      cpu_iowait_pct = some (percent (sub_ℕ c.iowait l.iowait) d_total);
      cpu_steal_pct = some (percent (sub_ℕ c.steal l.steal) d_total);
    }
    else record { cpu_busy_pct = none; cpu_iowait_pct = none; cpu_steal_pct = none }

-- The numbers of the first line of /proc/stat, where it can be read and begins with "cpu".
unfoldable pub collect_cpu_pressure :
    Option (List ℕ) → Option CpuTimes → CpuPressure × Option CpuTimes
collect_cpu_pressure none last =
    (record { cpu_busy_pct = none; cpu_iowait_pct = none; cpu_steal_pct = none }, last)
collect_cpu_pressure (some vals) last = let c = cpu_times vals in (pressure_of c last, some c)

-- After a reading of a counter, the next reading gives a rate exactly where time has passed and the
-- counter has not fallen, and so it is where readings in between failed.
rate_next :
    (first second : ℕ) (start now between : ℕ) (last : Option Sample)
    → let s = (collect_rate (some first) start last).1 in
      ((is_some (collect_rate (some second) now s).0 ≡ true) ↔ (start < now) × (first ≤ second))
      × (collect_rate (some second) now (collect_rate none between s).1
          ≡ collect_rate (some second) now s)
unfolding collect_rate per_minute
rate_next first second start now between last = (ground arith, refl)
