-- ===== src/Collect/Buffer.antt =====
-- The peaks of the buffer fill in `collect_logs` of cc_mqtt_monitor/collect.py: of the recent
-- reports, and before the last drop. Times are in milliseconds, fills in thousandths of a percent.
pub mod Leadup
use mathlib.Core.Option
use cc_rms_mqtt_monitor.Base.{
  ℕ, zero, suc, ◌+◌, ◌-◌, ◌/◌, ◌*◌, max, String, Bool, true, false, not, ◌&&◌, ◌||◌, Option, none,
  some, List, [], ◌∷◌, ◌++◌, ltb, leb, ◌==◌, if◌then◌else◌, is_some, length, or_else, str_eq,
  push_all,
}

-- a line with a buffer report
pub record Point : Type 0 where
  pub ts : Option ℕ
  pub fill : ℕ
  pub session : ℕ

abbrev pub spike_window : ℕ
spike_window = 900000

abbrev pub spike_window_points : ℕ
spike_window_points = 90

-- the fills of the points that have a timestamp, with it
unfoldable pub timed : List Point → List (ℕ × ℕ)
timed [] = []
timed (q ∷ qs) = elim q.ts [ none ↦ timed qs | some t ↦ (t, q.fill) ∷ timed qs ]

-- the fills with `0 <= end - t <= _SPIKE_WINDOW_S`
unfoldable pub fills_within : ℕ → List (ℕ × ℕ) → List ℕ
fills_within end [] = []
fills_within end ((t, f) ∷ xs) =
    let rest = fills_within end xs in
    if leb t end && leb (end - t) spike_window then f ∷ rest else rest

-- the fills of the first n points
unfoldable pub first_fills : ℕ → List Point → List ℕ
first_fills zero qs = []
first_fills (suc n) [] = []
first_fills (suc n) (q ∷ qs) = q.fill ∷ first_fills n qs

-- `round(max(vals), 1) if vals`
unfoldable pub peak : List ℕ → Option ℕ
peak [] = none
peak (v ∷ vs) = some ((greatest v vs + 50) / 100 * 100)
  where
    greatest : ℕ → List ℕ → ℕ
    greatest best [] = best
    greatest best (x ∷ xs) = greatest (max best x) xs

-- The fills that count by the time of an end point, of points with the latest first: those within
-- the window where times are known, else the latest ones.
unfoldable pub recent_fills : Option ℕ → List Point → List ℕ
recent_fills none qs = first_fills spike_window_points qs
recent_fills (some end) qs = elim (timed qs) [
  | [] ↦ first_fills spike_window_points qs
  | x ∷ xs ↦ fills_within end (x ∷ xs)
]

-- The loop for `drop_idx`: the points it has passed, the latest first, those that are left, and the
-- lead-up and the point of the last rise of the session counter so far.
unfoldable pub find_drop :
    List Point → List Point → Option (List Point × Point) → Option (List Point × Point)
find_drop past [] found = found
find_drop [] (q ∷ qs) found = find_drop (q ∷ []) qs found
find_drop (prev ∷ past) (q ∷ qs) found =
    find_drop (q ∷ prev ∷ past) qs
      (if ltb prev.session q.session then some (prev ∷ past, q) else found)

-- `buffer_fill_max_leadup`
unfoldable pub leadup_of : Option (List Point × Point) → Option ℕ
leadup_of none = none
leadup_of (some (lead, q)) = peak (recent_fills q.ts lead)

unfoldable pub max_leadup : List Point → Option ℕ
max_leadup points = leadup_of (find_drop [] points none)

-- the time of the latest point that has one
unfoldable pub newest_time : List Point → Option ℕ
newest_time [] = none
newest_time (q ∷ qs) = elim q.ts [ some t ↦ some t | none ↦ newest_time qs ]

-- `buffer_fill_max_recent`
unfoldable pub max_recent : List Point → Option ℕ
max_recent points =
    let latest_first = push_all points [] in
    peak (recent_fills (newest_time latest_first) latest_first)
