-- ===== src/Collect/Disconnects/Repeats.antt =====
-- What it is to repeat a drop of an earlier day, for `classify_disconnects` in cc_mqtt_monitor/collect.py.
use cc_rms_mqtt_monitor.Base.{
  ℕ, ◌+◌, ◌-◌, ◌*◌, ◌/◌, ◌%◌, ◌≤◌, ◌<◌, ◌≡◌, true, List, Memᴰ, arith, Bool-cases, inl, inr, any,
  any-Memᴰ, Memᴰ-any, leb,
}
use cc_rms_mqtt_monitor.Collect.Disconnects.{sched_tol, day, distance, is_repeat}

-- a drop at t comes some whole days after one at p, give or take the tolerance
abbrev pub DaysAfter : ℕ → ℕ → Type 0
DaysAfter t p = (k : ℕ) × (0 < k) × (distance t (p + k * day) ≤ sched_tol)

is_repeat→DaysAfter : (t p : ℕ) → is_repeat t p ≡ true → DaysAfter t p
unfolding is_repeat distance
is_repeat→DaysAfter t p h =
    let gap = t - p in
    elim (Bool-cases (leb (gap % day) sched_tol)) [
      | inl after ↦ (gap / day, ground (arith, h, after), ground (arith, h, after))
      | inr before ↦ (gap / day + 1, ground (arith), ground (arith, h, before))
    ]

DaysAfter→is_repeat : (t p : ℕ) → DaysAfter t p → is_repeat t p ≡ true
unfolding is_repeat distance
DaysAfter→is_repeat t p (k, pos, near) = ground (arith, pos, near)

-- It comes whole days after one of the history.
abbrev pub Repeats : List ℕ → ℕ → Type 0
Repeats history t = (p : ℕ) × Memᴰ p history × DaysAfter t p

pub any→Repeats : (history : List ℕ) (t : ℕ) → any (is_repeat t) history ≡ true → Repeats history t
any→Repeats history t h =
    let (p, m, r) = any-Memᴰ (is_repeat t) history h in (p, m, is_repeat→DaysAfter t p r)

pub Repeats→any : (history : List ℕ) (t : ℕ) → Repeats history t → any (is_repeat t) history ≡ true
Repeats→any history t (p, m, r) = Memᴰ-any (is_repeat t) m (DaysAfter→is_repeat t p r)
