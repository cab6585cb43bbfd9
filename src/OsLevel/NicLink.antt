-- ===== src/OsLevel/NicLink.antt =====
-- `read_nic_link` and `collect_nic_link` of cc_mqtt_monitor/oslevel.py.
-- The interfaces are those under /sys/class/net in the order of their names, with what their
-- attributes read; ethtool is an input.
pub mod Expected
use mathlib.Core.Option
use cc_rms_mqtt_monitor.Base.{
  ℕ, String, Bool, true, false, not, ◌&&◌, ◌||◌, Option, none, some, List, [], ◌∷◌, ltb,
  if◌then◌else◌, str_eq, contains, has_prefix, is_some, Dict, ℤ, float,
}
use cc_rms_mqtt_monitor.Health.Metrics.{Link}
use cc_rms_mqtt_monitor.OsLevel.Ethtool.{Line, Expectation, link_expectation}

-- one directory of /sys/class/net: the speed where it is a number that is not negative
pub record Iface : Type 0 where
  pub name : String
  pub speed : Option ℕ
  pub duplex : Option String
  pub operstate : Option String

pub record NicLink : Type 0 where
  pub speed_mbps : Option ℕ
  pub duplex : Option String
  pub operstate : Option String
  pub expectation : Option Expectation

-- `name == "lo" or name.startswith((...))`
unfoldable pub is_virtual : String → Bool
is_virtual n =
    str_eq n "lo"
    || has_prefix "veth" n
    || has_prefix "docker" n
    || has_prefix "br-" n
    || has_prefix "virbr" n
    || has_prefix "tap" n
    || has_prefix "tun" n

unfoldable pub is_watched : Option (List String) → String → Bool
is_watched none n = not (is_virtual n)
is_watched (some names) n = contains n names

-- a speed that is positive
unfoldable pub positive : Option ℕ → Option ℕ
positive none = none
positive (some n) = if ltb 0 n then some n else none

unfoldable pub known_duplex : Option String → Option String
known_duplex none = none
known_duplex (some d) = if contains d ("full" ∷ "half" ∷ []) then some d else none

-- only a link with a speed is asked for its partner
unfoldable pub read_link : (String → List ℕ) → (String → Option (List Line)) → Iface → NicLink
read_link modes ethtool i = record {
  speed_mbps = positive i.speed;
  duplex = known_duplex i.duplex;
  operstate = i.operstate;
  expectation = Option.map (λ _. link_expectation modes (ethtool i.name)) (positive i.speed);
}

unfoldable pub read_nic_link :
    (String → List ℕ)
    → (String → Option (List Line))
    → Option (List String)
    → List Iface
    → Dict NicLink
read_nic_link modes ethtool interfaces [] = []
read_nic_link modes ethtool interfaces (i ∷ is) =
    let rest = read_nic_link modes ethtool interfaces is in
    if is_watched interfaces i.name then (i.name, read_link modes ethtool i) ∷ rest else rest

unfoldable pub expected_of : Option Expectation → Option ℕ
expected_of none = none
expected_of (some e) = e.expected_mbps

unfoldable pub autoneg_of : Option Expectation → Option Bool
autoneg_of none = none
autoneg_of (some e) = e.partner_autoneg

-- the slowest of the links with a speed, the first of equals, with its duplex
unfoldable pub slowest : Option (ℕ × Option String) → Dict NicLink → Option (ℕ × Option String)
slowest best [] = best
slowest best ((n, l) ∷ ls) =
    slowest
      (elim l.speed_mbps [
        | none ↦ best
        | some s ↦ elim best [
          | none ↦ some (s, l.duplex)
          | some (b, d) ↦ if ltb s b then some (s, l.duplex) else some (b, d)
        ]
      ])
      ls

-- the names of the links with a speed whose partner is not known
unfoldable pub unknown_links : Dict NicLink → List String
unknown_links [] = []
unknown_links ((n, l) ∷ ls) =
    let rest = unknown_links ls in
    if is_some l.speed_mbps && not (is_some (expected_of l.expectation)) then n ∷ rest else rest

-- what `check_links` reads of a link
unfoldable pub link_of : NicLink → Link
link_of l = record {
  speed_mbps = Option.map float l.speed_mbps;
  duplex = l.duplex;
  expected_mbps = Option.map float (expected_of l.expectation);
  partner_autoneg = autoneg_of l.expectation;
}

pub record NicSummary : Type 0 where
  pub nic_link : Dict NicLink
  pub nic_link_speed_mbps : Option ℕ
  pub nic_link_duplex : Option String
  -- the links that the note names
  pub nic_link_note : List String

unfoldable pub duplex_of : Option (ℕ × Option String) → Option String
duplex_of none = none
duplex_of (some (s, d)) = d

unfoldable pub collect_nic_link :
    (String → List ℕ)
    → (String → Option (List Line))
    → Option (List String)
    → List Iface
    → NicSummary
collect_nic_link modes ethtool interfaces ifaces =
    let links = read_nic_link modes ethtool interfaces ifaces in
    record {
      nic_link = links;
      nic_link_speed_mbps = Option.map (λ (sd : ℕ × Option String). sd.0) (slowest none links);
      nic_link_duplex = duplex_of (slowest none links);
      nic_link_note = unknown_links links;
    }
