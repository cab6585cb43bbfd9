-- ===== src/OsLevel/Rates/Bounds.antt =====
-- The bounds of the percentages of `collect_cpu_pressure` in cc_mqtt_monitor/oslevel.py.
use native.Mathlib.Nat.{mul-div-le, lt_of_mul-lt-mul_left}
use cc_rms_mqtt_monitor.Base.{
  ◌≤ℤ◌, lt→ltb, ℕ, zero, suc, ◌+◌, ◌-◌, ◌*◌, ◌/◌, ◌≤◌, ◌<◌, ◌≡◌, true, Option, none, some, List, [],
  ◌∷◌, arith, leb, ℤ, pos, sub_ℕ, tenths, sum,
}
use cc_rms_mqtt_monitor.OsLevel.Rates.{
  CpuTimes, field_at, cpu_times, percent, pressure_of, collect_cpu_pressure,
}

-- a percentage of a part is at most 100
tenths_whole : (n d : ℕ) → n ≤ d → 0 < d → tenths (n * 100) d ≤ 100000
unfolding tenths
tenths_whole n d le pos_d =
    let small = mul-div-le (20 * (n * 100) + d) (2 * d) in
    let q = (20 * (n * 100) + d) / (2 * d) in
    let bound = lt_of_mul-lt-mul_left (2 * d) {m = q} {n = 1001} (omega (arith, small)) in
    omega (arith, bound)

percent_whole :
    (a b d : ℕ)
    → b ≤ a
    → a - b ≤ d
    → 0 < d
    → (pos 0 ≤ℤ percent (sub_ℕ a b) d) × (percent (sub_ℕ a b) d ≤ℤ pos 100000)
unfolding percent
percent_whole a b d le whole pos_d =
    let up : leb b a ≡ true = ground arith in
    rw up (omega arith, omega (arith, tenths_whole (a - b) d whole pos_d))

-- The numbers of a later reading are no less than those of an earlier one, field by field.
abbrev pub Grows : List ℕ → List ℕ → Type 0
Grows [] [] = Unit
Grows (a ∷ as') (b ∷ bs) = (a ≤ b) × Grows as' bs
Grows as' bs = ⊥

sum-Grows : (as' bs : List ℕ) → Grows as' bs → sum as' ≤ sum bs
unfolding sum
sum-Grows [] [] h = omega arith
sum-Grows (a ∷ as') (b ∷ bs) (le, h) = omega (arith, sum-Grows as' bs h)
sum-Grows [] (b ∷ bs) h = absurd h
sum-Grows (a ∷ as') [] h = absurd h

field-Grows : (i : ℕ) (as' bs : List ℕ) → Grows as' bs → field_at i as' ≤ field_at i bs
unfolding field_at
field-Grows i [] [] h = omega arith
field-Grows zero (a ∷ as') (b ∷ bs) h = h.0
field-Grows (suc i) (a ∷ as') (b ∷ bs) h = field-Grows i as' bs h.1
field-Grows i [] (b ∷ bs) h = absurd h
field-Grows i (a ∷ as') [] h = absurd h

field_share :
    (i : ℕ) (as' bs : List ℕ) → Grows as' bs → field_at i bs + sum as' ≤ field_at i as' + sum bs
unfolding field_at sum
field_share i [] [] h = omega arith
field_share zero (a ∷ as') (b ∷ bs) h = omega (arith, h.0, sum-Grows as' bs h.1)
field_share (suc i) (a ∷ as') (b ∷ bs) h = omega (arith, h.0, field_share i as' bs h.1)
field_share i [] (b ∷ bs) h = absurd h
field_share i (a ∷ as') [] h = absurd h

pair_share :
    (i : ℕ) (as' bs : List ℕ)
    → Grows as' bs
    → (field_at i bs + field_at (suc i) bs) + sum as'
      ≤ (field_at i as' + field_at (suc i) as') + sum bs
unfolding field_at sum
pair_share i [] [] h = omega arith
pair_share zero (a ∷ as') (b ∷ bs) h = omega (arith, h.0, field_share 0 as' bs h.1)
pair_share (suc i) (a ∷ as') (b ∷ bs) h = omega (arith, h.0, pair_share i as' bs h.1)
pair_share i [] (b ∷ bs) h = absurd h
pair_share i (a ∷ as') [] h = absurd h

-- a percentage that lies between 0 and 100
abbrev pub IsPercentage : Option ℤ → Type 0
IsPercentage none = ⊥
IsPercentage (some n) = (pos 0 ≤ℤ n) × (n ≤ℤ pos 100000)

-- Of two readings of the processor times of which the second is no lower in any field and higher in
-- some, the second gives a busy, a waiting and a stolen percentage, each between 0 and 100.
pub pressure_bounds :
    (first second : List ℕ) (last : Option CpuTimes)
    → Grows first second
    → sum first < sum second
    → let p = (collect_cpu_pressure (some second) (collect_cpu_pressure (some first) last).1).0 in
      IsPercentage p.cpu_busy_pct × IsPercentage p.cpu_iowait_pct × IsPercentage p.cpu_steal_pct
unfolding collect_cpu_pressure pressure_of cpu_times
pressure_bounds first second last h more =
    let pair = pair_share 3 first second h in
    let idle = field-Grows 3 first second h in
    let iowait = field-Grows 4 first second h in
    let steal = field-Grows 7 first second h in
    let d = sum second - sum first in
    rw (lt→ltb (sum first) (sum second) more) (
      percent_whole _ _ d (omega arith) (omega arith) (omega arith),
      percent_whole _ _ d iowait (omega (arith, field_share 4 first second h)) (omega arith),
      percent_whole _ _ d steal (omega (arith, field_share 7 first second h)) (omega arith),
    )
