-- ===== src/Health/Links.antt =====
-- `_link_speed_rule` and the link-speed check of `evaluate_host` in cc_mqtt_monitor/health.py.
use cc_rms_mqtt_monitor.Base.{
  String, Bool, true, false, Option, none, some, List, [], ◌∷◌, ℤ, float, ltb_ℤ, if◌then◌else◌,
  contains, some_and, Dict, Text, Args, nil, arg, str, num, fmt, join, one,
}
use cc_rms_mqtt_monitor.Config.{Thresholds, Value}
use cc_rms_mqtt_monitor.Health.{Check, degraded, flag, skip}
use cc_rms_mqtt_monitor.Health.Metrics.{HostMetrics, Link}
use cc_rms_mqtt_monitor.Health.Reading.{equals, is_false}

-- `off` is the source's None
pub data LinkRule : Type 0 where
  off auto : LinkRule
  floor : ℤ → LinkRule

-- `n if n > 0 else None`
floor_of : ℤ → LinkRule
floor_of n = if ltb_ℤ (float 0) n then LinkRule.floor n else LinkRule.off

abbrev off_words : List String
off_words = "0" ∷ "off" ∷ "no" ∷ "none" ∷ "false" ∷ "" ∷ []

unfoldable pub link_speed_rule : Value → LinkRule
unfolding floor_of contains
link_speed_rule Value.null = LinkRule.off
link_speed_rule (Value.boolean false) = LinkRule.off
link_speed_rule (Value.boolean true) = LinkRule.floor (float 1)
link_speed_rule (Value.number n) = floor_of n
link_speed_rule (Value.numeral n) = floor_of n
link_speed_rule (Value.word s) = if contains s off_words then LinkRule.off else LinkRule.auto

-- the speed that a link must reach under a rule
unfoldable pub wanted_speed : LinkRule → Link → Option ℤ
wanted_speed LinkRule.off link = none
wanted_speed LinkRule.auto link = link.expected_mbps
wanted_speed (LinkRule.floor n) link = some n

-- `floor is not None and speed < floor`
unfoldable pub below_floor : ℤ → Option ℤ → Bool
below_floor speed least = some_and least (λ f. ltb_ℤ speed f)

unfoldable pub half_duplex : Link → Bool
unfolding equals
half_duplex link = equals link.duplex "half"

pub slow_text : LinkRule → Option ℤ → Text
slow_text rule none = str ""
slow_text LinkRule.auto (some f) = fmt "link partner advertises %d Mb/s" (one (num f))
slow_text rule (some f) = fmt "expected >= %d Mb/s" (one (num f))

pub duplex_text : Link → Text
duplex_text link =
    if is_false link.partner_autoneg
    then str "half-duplex -- link partner is not auto-negotiating (forced port => duplex mismatch)"
    else str "half-duplex"

-- the list `reasons`, in the order in which it is filled
unfoldable pub reasons : LinkRule → Link → ℤ → Args
unfolding below_floor
reasons rule link speed =
    let slow = below_floor speed (wanted_speed rule link) in
    let half = half_duplex link in
    let rest = if half then one (duplex_text link) else nil in
    if slow then arg (slow_text rule (wanted_speed rule link)) rest else rest

-- `slow.append(…)` where there are reasons
unfoldable pub report_link : String → ℤ → Args → List Text → List Text
report_link iface speed nil found = found
report_link iface speed (arg why rest) found =
    fmt "%s at %d Mb/s (%s)" (arg (str iface) (arg (num speed) (one (join "; " (arg why rest)))))
    ∷ found

-- one round of the loop: `continue` where the speed is None
unfoldable pub add_link : LinkRule → String → Link → Option ℤ → List Text → List Text
unfolding reasons report_link
add_link rule iface link none found = found
add_link rule iface link (some speed) found =
    report_link iface speed (reasons rule link speed) found

-- the loop over the interfaces: the entries of `slow`
unfoldable pub slow_links : LinkRule → Dict Link → List Text
unfolding add_link
slow_links rule [] = []
slow_links rule ((iface, link) ∷ rest) =
    add_link rule iface link link.speed_mbps (slow_links rule rest)

pub to_args : List Text → Args
to_args [] = nil
to_args (t ∷ ts) = arg t (to_args ts)

unfoldable pub report_slow : List Text → Check
report_slow [] = skip
report_slow (t ∷ ts) = flag degraded "nic_link_slow" (
    fmt "NIC link speed dropped: %s -- check the cable / switch port"
      (one (join ", " (to_args (t ∷ ts)))))

unfoldable pub link_check : LinkRule → Dict Link → Check
link_check LinkRule.off links = skip
link_check rule links = report_slow (slow_links rule links)

unfoldable pub check_links : HostMetrics → Thresholds → Check
unfolding link_check
check_links m th = link_check (link_speed_rule th.nic_link_speed_min_mbps) m.nic_link
