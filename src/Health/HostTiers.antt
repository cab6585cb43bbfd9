-- ===== src/Health/HostTiers.antt =====
-- The tiers of the host's checks: the OOM-killer, memory pressure, the network links.
use cc_rms_mqtt_monitor.Base.{
  Bool-cases, nil, Text, Args, inl, inr, ◌≤◌, String, ◌≡◌, ◌≢◌, ◌↔◌, refl, Bool, true, false, not,
  ◌&&◌, ◌||◌, Option, none, some, List, [], ◌∷◌, ltb, if◌then◌else◌, contains, arith, ℤ, float,
  ◌<ℤ◌, ◌≤ℤ◌, ltb_ℤ, leb_ℤ, ltb_ℤ_iff, Dict,
}
use cc_rms_mqtt_monitor.Config.{Thresholds, Value}
use cc_rms_mqtt_monitor.Health.{Status, ok, degraded, fresh, flag, when, rank, worse}
use cc_rms_mqtt_monitor.Health.Metrics.{HostMetrics, Link, at_most}
use cc_rms_mqtt_monitor.Health.Host.{
  check_oom, restarted, rebooted, oom_is_recent, oom_level, oom_alert, victim_of,
}
use cc_rms_mqtt_monitor.Health.Links.{
  LinkRule, link_speed_rule, wanted_speed, half_duplex, reasons, report_link, add_link, slow_links,
}

-- the host metrics with a given age of the last kill
abbrev pub aged : HostMetrics → ℤ → HostMetrics
aged m a = record m { oom_last_age_s = some a }

restarted_mono :
    (m : HostMetrics) (a b : ℤ) → a ≤ℤ b → restarted (aged m a) ≡ true → restarted (aged m b) ≡ true
unfolding restarted ltb_ℤ
restarted_mono m a b h r = ground arith

rebooted_mono :
    (m : HostMetrics) (a b : ℤ) → a ≤ℤ b → rebooted (aged m a) ≡ true → rebooted (aged m b) ≡ true
unfolding rebooted ltb_ℤ
rebooted_mono m a b h r = ground arith

recent_mono :
    (m : HostMetrics) (th : Thresholds) (a b : ℤ)
    → a ≤ℤ b
    → oom_is_recent (aged m b) th ≡ true
    → oom_is_recent (aged m a) th ≡ true
unfolding oom_is_recent at_most leb_ℤ
recent_mono m th a b h r = ground arith

-- the level of an alert from what it turns on
abbrev alert_level : Bool → Bool → Bool → Status → Status
alert_level active off recent level =
    if active then if off then ok else if recent then level else degraded else ok

-- a kill without proof of recovery
abbrev active : HostMetrics → Bool
active m = ltb 0 m.oom_kill_count && not (restarted m || rebooted m)

oom_alert-level :
    (m : HostMetrics) (r : Bool) (d : List String)
    → (oom_alert r m d fresh).status ≡ alert_level true (contains "oom" d) r (oom_level m)
unfolding oom_alert flag worse rank
oom_alert-level m true d = ground arith
oom_alert-level m false d = ground arith

check_oom-level :
    (m : HostMetrics) (th : Thresholds) (d : List String)
    → (check_oom m th d fresh).status
      ≡ alert_level (active m) (contains "oom" d) (oom_is_recent m th) (oom_level m)
unfolding check_oom when
check_oom-level m th d = elim (Bool-cases (active m)) [
  | inl on ↦ rw on (oom_alert-level m (oom_is_recent m th) d)
  | inr quiet ↦ rw quiet refl
]

alert_level_mono :
    (act act' off rec rec' : Bool) (level : Status)
    → (act' ≡ true → act ≡ true)
    → (rec' ≡ true → rec ≡ true)
    → level ≢ ok
    → rank (alert_level act' off rec' level) ≤ rank (alert_level act off rec level)
unfolding rank
alert_level_mono act act' off rec rec' level h k l = ground arith

oom_level-ne-ok : (m : HostMetrics) → oom_level m ≢ ok
unfolding oom_level
oom_level-ne-ok m = ground arith

active_mono :
    (m : HostMetrics) (a b : ℤ) → a ≤ℤ b → active (aged m b) ≡ true → active (aged m a) ≡ true
active_mono m a b h r = ground (arith, restarted_mono m a b h, rebooted_mono m a b h)

-- As the last OOM kill gets older, the level of its alert never rises.
check_oom_ages :
    (m : HostMetrics) (th : Thresholds) (d : List String) (a b : ℤ)
    → a ≤ℤ b
    → rank (check_oom (aged m b) th d fresh).status ≤ rank (check_oom (aged m a) th d fresh).status
unfolding oom_level victim_of
check_oom_ages m th d a b h =
    rw (check_oom-level (aged m a) th d, check_oom-level (aged m b) th d)
      (alert_level_mono _ _ _ _ _ (oom_level m) (active_mono m a b h) (recent_mono m th a b h)
        (oom_level-ne-ok m))

-- A numeric floor that comes out of the setting is positive; zero and negative numbers, written as
-- numbers or as numerals, turn the check off, and so do null and false.
link_speed_rule-positive : (v : Value) (n : ℤ) → link_speed_rule v ≡ LinkRule.floor n → float 0 <ℤ n
unfolding link_speed_rule
link_speed_rule-positive (Value.number z) n h = ground (arith, ltb_ℤ_iff (float 0) z)
link_speed_rule-positive (Value.numeral z) n h = ground (arith, ltb_ℤ_iff (float 0) z)
link_speed_rule-positive (Value.word w) n h = ground arith
link_speed_rule-positive (Value.boolean b) n h = ground arith
link_speed_rule-positive Value.null n h = cc

-- what is wanted of a link, and reached
abbrev pub Reaches : Option ℤ → ℤ → Type 0
Reaches none speed = Unit
Reaches (some least) speed = least ≤ℤ speed

reasons-eq-nil :
    (rule : LinkRule) (link : Link) (speed : ℤ)
    → (reasons rule link speed ≡ nil)
      ↔ ((half_duplex link ≡ false) × Reaches (wanted_speed rule link) speed)
unfolding reasons ltb_ℤ
reasons-eq-nil rule link speed = go (wanted_speed rule link) refl
  where
    go :
        (o : Option ℤ)
        → wanted_speed rule link ≡ o
        → (reasons rule link speed ≡ nil)
          ↔ ((half_duplex link ≡ false) × Reaches (wanted_speed rule link) speed)
    go none e = rw e (ground (arith, e))
    go (some least) e = rw e (ground (arith, e))

-- a link that is not to be reported: no speed, or a full-duplex one that reaches what is wanted
abbrev pub IsFine : LinkRule → Link → Option ℤ → Type 0
IsFine rule link none = Unit
IsFine rule link (some speed) = (half_duplex link ≡ false) × Reaches (wanted_speed rule link) speed

abbrev pub AllFine : LinkRule → Dict Link → Type 0
AllFine rule [] = Unit
AllFine rule ((iface, link) ∷ rest) = IsFine rule link link.speed_mbps × AllFine rule rest

report_link-eq-nil :
    (iface : String) (speed : ℤ) (why : Args) (found : List Text)
    → (report_link iface speed why found ≡ []) ↔ ((why ≡ nil) × (found ≡ []))
unfolding report_link
report_link-eq-nil iface speed why found = ground arith

add_link-eq-nil :
    (rule : LinkRule) (iface : String) (link : Link) (o : Option ℤ) (found : List Text)
    → (add_link rule iface link o found ≡ []) ↔ (IsFine rule link o × (found ≡ []))
unfolding add_link
add_link-eq-nil rule iface link none found = (λ e. (tt, e), λ h. h.1)
add_link-eq-nil rule iface link (some speed) found = ground (
  arith,
  report_link-eq-nil iface speed (reasons rule link speed) found,
  reasons-eq-nil rule link speed,
)

-- No link is reported exactly where every link whose speed can be read is full duplex and reaches
-- the speed wanted of it: what its partner advertises under the automatic rule, the floor under a
-- floor, nothing where that is unknown.
pub slow_links-eq-nil :
    (rule : LinkRule) (links : Dict Link) → (slow_links rule links ≡ []) ↔ AllFine rule links
unfolding slow_links
slow_links-eq-nil rule [] = (λ e. tt, λ e. refl)
slow_links-eq-nil rule ((iface, link) ∷ rest) =
    let step = add_link-eq-nil rule iface link link.speed_mbps (slow_links rule rest) in
    let ih = slow_links-eq-nil rule rest in
    (λ e. ((step.0 e).0, ih.0 (step.0 e).1), λ h. step.1 (h.0, ih.1 h.1))
