-- ===== src/Collect/Disconnects.antt =====
-- `classify_disconnects` and `_disc_history` of cc_mqtt_monitor/collect.py: which disconnects of a
-- session are a scheduled reboot of the camera. Times are in milliseconds.
pub mod Bursts
pub mod Repeats
use cc_rms_mqtt_monitor.Base.{
  ℕ, ◌+◌, ◌-◌, ◌*◌, ◌/◌, ◌%◌, min, Bool, true, false, not, ◌&&◌, ◌||◌, Option, none, some, List, [],
  ◌∷◌, ◌++◌, map, leb, ltb, ◌==◌, if◌then◌else◌, length, filter, any,
}
use cc_rms_mqtt_monitor.StateFiles.{Cell, read_first, write_first}

abbrev pub sched_tol : ℕ
sched_tol = 1200000

abbrev pub sched_burst : ℕ
sched_burst = 600000

abbrev pub disc_history_span : ℕ
disc_history_span = 345600000

abbrev pub day : ℕ
day = 86400000

-- `abs(a - b)`
unfoldable pub distance : ℕ → ℕ → ℕ
distance a b = (a - b) + (b - a)

-- whether the drop at t repeats the one at p on a later day; a gap below zero is below any bound
unfoldable pub is_repeat : ℕ → ℕ → Bool
is_repeat t p =
    let gap = t - p in
    let off = gap % day in not (ltb gap (day - sched_tol)) && leb (min off (day - off)) sched_tol

-- a disconnect, and whether it is in the set of scheduled ones
pub record Drop : Type 0 where
  pub time : ℕ
  pub scheduled : Bool

-- the first loop
unfoldable pub match_history : List ℕ → List ℕ → List Drop
match_history history [] = []
match_history history (t ∷ ts) =
    record { time = t; scheduled = any (is_repeat t) history } ∷ match_history history ts

-- `abs(t - session_ts[j]) <= _SCHED_BURST_S` for some j of the set
unfoldable pub is_near : ℕ → List Drop → Bool
is_near t ds = any (λ (d : Drop). d.scheduled && leb (distance t d.time) sched_burst) ds

-- the verdict on a drop in the second loop, by those before it and those after it
unfoldable pub decide : List Drop → Drop → List Drop → Drop
decide past d ds = record d {
  scheduled = d.scheduled || (is_near d.time past || is_near d.time ds);
}

-- The second loop: those that it has passed, the latest first, and those that are left.
unfoldable pub spread : List Drop → List Drop → List Drop
spread past [] = past
spread past (d ∷ ds) = spread (decide past d ds ∷ past) ds

-- the disconnects with their final verdicts, the latest first
unfoldable pub verdicts : List ℕ → List ℕ → List Drop
verdicts session history = spread [] (match_history history session)

unfoldable pub count_scheduled : List Drop → ℕ
count_scheduled [] = 0
count_scheduled (d ∷ ds) = (if d.scheduled then 1 else 0) + count_scheduled ds

-- (scheduled, unplanned)
unfoldable pub classify_disconnects : List ℕ → List ℕ → ℕ × ℕ
classify_disconnects session history =
    let sched = count_scheduled (verdicts session history) in (sched, length session - sched)

-- `round(x)` to whole seconds
unfoldable pub whole : ℕ → ℕ
whole x = (x + 500) / 1000 * 1000

-- adds to a sorted list without repetition
unfoldable pub insert_sorted : ℕ → List ℕ → List ℕ
insert_sorted x [] = x ∷ []
insert_sorted x (y ∷ ys) =
    let rest = insert_sorted x ys in
    if ltb x y then x ∷ y ∷ ys else if x == y then y ∷ ys else y ∷ rest

-- `sorted({round(x) for x in xs if now - x <= _DISC_HISTORY_S})`
unfoldable pub merge_recent : ℕ → List ℕ → List ℕ
merge_recent now [] = []
merge_recent now (x ∷ xs) =
    let rest = merge_recent now xs in
    if leb (now - x) disc_history_span then insert_sorted (whole x) rest else rest

-- `all(abs(h - t) > 60 for t in session_ts)`
unfoldable pub is_apart : List ℕ → ℕ → Bool
is_apart session h = not (any (λ t. leb (distance h t) 60000) session)

unfoldable pub recorded : Option (List ℕ) → List ℕ
recorded none = []
recorded (some h) = h

-- the disconnects of earlier days, and the state files after this session's are added
unfoldable pub disc_history : List ℕ → ℕ → List (Cell (List ℕ)) → List ℕ × List (Cell (List ℕ))
disc_history session now cells =
    let hist = recorded (read_first (λ _. true) cells) in
    (filter (is_apart session) hist, (write_first (merge_recent now (hist ++ session)) cells).0)
