-- ===== src/Collect/Buffer/Leadup.antt =====
-- The buffer fill before a drop in `collect_logs` of cc_mqtt_monitor/collect.py.
use cc_rms_mqtt_monitor.Base.{
  ◌≤◌, ◌<◌, ◌≡◌, refl, ap, false, Option, none, some, List, [], ◌∷◌, ◌++◌, arith, ltb, push_all,
  lt→ltb,
}
use cc_rms_mqtt_monitor.Collect.Buffer.{Point, recent_fills, peak, find_drop, leadup_of, max_leadup}

-- The session counter never rises.
abbrev pub NeverRises : List Point → Type 0
NeverRises [] = Unit
NeverRises (p ∷ []) = Unit
NeverRises (p ∷ q ∷ qs) = (q.session ≤ p.session) × NeverRises (q ∷ qs)

find_drop_level :
    (past : List Point) (p : Point) (qs : List Point) (found : Option (List Point × Point))
    → NeverRises (p ∷ qs)
    → find_drop (p ∷ past) qs found ≡ found
unfolding find_drop
find_drop_level past p [] found h = refl
find_drop_level past p (q ∷ qs) found (level, h) =
    let same : ltb p.session q.session ≡ false = ground arith in
    rw same (find_drop_level (p ∷ past) q qs found h)

find_drop_last :
    (past before : List Point) (p q : Point) (after : List Point)
    (found : Option (List Point × Point))
    → p.session < q.session
    → NeverRises (q ∷ after)
    → find_drop past (before ++ p ∷ q ∷ after) found ≡ some (p ∷ push_all before past, q)
unfolding find_drop push_all
find_drop_last [] [] p q after found up h =
    rw (find_drop, lt→ltb p.session q.session up) (find_drop_level _ q after _ h)
find_drop_last (r ∷ past) [] p q after found up h =
    rw (find_drop, lt→ltb p.session q.session up) (find_drop_level _ q after _ h)
find_drop_last [] (b ∷ before) p q after found up h =
    find_drop_last (b ∷ []) before p q after found up h
find_drop_last (r ∷ past) (b ∷ before) p q after found up h =
    find_drop_last (b ∷ r ∷ past) before p q after _ up h

find_drop-none : (points : List Point) → NeverRises points → find_drop [] points none ≡ none
unfolding find_drop
find_drop-none [] h = refl
find_drop-none (p ∷ qs) h = find_drop_level [] p qs none h

-- Where the session counter of dropped frames rises last from one report p to the next q, the peak
-- before the drop is that of the reports up to p alone, by the time of q: neither the fill at q nor
-- any later report counts. Where it never rises, there is no peak.
pub leadup_before :
    (before : List Point) (p q : Point) (after level : List Point)
    → p.session < q.session
    → NeverRises (q ∷ after)
    → NeverRises level
    → (max_leadup (before ++ p ∷ q ∷ after) ≡ peak (recent_fills q.ts (p ∷ push_all before [])))
      × (max_leadup level ≡ none)
unfolding max_leadup leadup_of
leadup_before before p q after level up h flat = (
  ap leadup_of (find_drop_last [] before p q after none up h),
  ap leadup_of (find_drop-none level flat),
)
