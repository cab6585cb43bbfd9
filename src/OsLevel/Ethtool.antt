-- ===== src/OsLevel/Ethtool.antt =====
-- `parse_ethtool` and `_link_expectation` of cc_mqtt_monitor/oslevel.py: what a link should have
-- negotiated. The speeds in a text of link modes (`_LINK_MODE_RE`) are an input; a line of the
-- output is stripped and cut at its first ":".
use cc_rms_mqtt_monitor.Base.{
  ℕ, min, max, String, Bool, true, false, ◌&&◌, Option, none, some, List, [], ◌∷◌, ◌++◌, ltb,
  if◌then◌else◌, str_eq, contains, Dict, lookup, insert, or_else,
}

-- a line without its blanks: empty, without a ":", or cut at the first one, both parts stripped;
-- `lowered` is the second in small letters
pub data Line : Type 0 where
  blank : Line
  plain : String → Line
  cut : (head tail lowered : String) → Line

abbrev pub mode_lists : List String
mode_lists =
    "Supported link modes" ∷ "Advertised link modes" ∷ "Link partner advertised link modes" ∷ []

-- the variables of the loop; a list is kept as the texts that are joined to it
pub record Parse : Type 0 where
  pub lists : Dict (List String)
  pub key : Option String
  pub autoneg : Option Bool
  pub partner_autoneg : Option Bool

abbrev pub no_parse : Parse
no_parse = record { lists = []; key = none; autoneg = none; partner_autoneg = none }

-- `{yes: True, no: False}.get(val)`
unfoldable pub bool_of : String → String → String → Option Bool
bool_of on off val =
    if str_eq val on then some true else if str_eq val off then some false else none

unfoldable pub set_flag : String → String → Parse → Parse
set_flag head val s =
    if str_eq head "Auto-negotiation"
    then record s { key = none; autoneg = bool_of "on" "off" val }
    else if str_eq head "Link partner advertised auto-negotiation"
    then record s { key = none; partner_autoneg = bool_of "yes" "no" val }
    else record s { key = none }

unfoldable pub continue_list : String → Parse → Option String → Parse
continue_list text s none = s
continue_list text s (some k) = record s {
  lists = insert k (or_else (lookup k s.lists) [] ++ text ∷ []) s.lists;
}

-- the body of the loop
unfoldable pub parse_line : Line → Parse → Parse
parse_line blank s = s
parse_line (plain text) s = continue_list text s s.key
parse_line (cut head tail lowered) s =
    let flags = set_flag head lowered s in
    if contains head mode_lists
    then record s { key = some head; lists = insert head (tail ∷ []) s.lists }
    else flags

unfoldable pub parse_lines : List Line → Parse → Parse
parse_lines [] s = s
parse_lines (l ∷ ls) s = parse_lines ls (parse_line l s)

unfoldable pub highest : Option ℕ → List ℕ → Option ℕ
highest best [] = best
highest none (n ∷ ns) = highest (some n) ns
highest (some b) (n ∷ ns) = highest (some (max b n)) ns

-- the speeds in all the texts of a list
unfoldable pub speeds_in : (String → List ℕ) → List String → List ℕ
speeds_in modes [] = []
speeds_in modes (t ∷ ts) = modes t ++ speeds_in modes ts

-- `_max_mode_mbps` of a list, none where it is missing
unfoldable pub max_mode_mbps : (String → List ℕ) → Option (List String) → Option ℕ
max_mode_mbps modes none = none
max_mode_mbps modes (some texts) = highest none (speeds_in modes texts)

pub record Advertised : Type 0 where
  pub supported_max_mbps : Option ℕ
  pub advertised_max_mbps : Option ℕ
  pub partner_max_mbps : Option ℕ
  pub partner_autoneg : Option Bool
  pub autoneg : Option Bool

unfoldable pub parse_ethtool : (String → List ℕ) → List Line → Advertised
parse_ethtool modes lines =
    let s = parse_lines lines no_parse in
    record {
      supported_max_mbps = max_mode_mbps modes (lookup "Supported link modes" s.lists);
      advertised_max_mbps = max_mode_mbps modes (lookup "Advertised link modes" s.lists);
      partner_max_mbps = max_mode_mbps modes (lookup "Link partner advertised link modes" s.lists);
      partner_autoneg = s.partner_autoneg;
      autoneg = s.autoneg;
    }

pub record Expectation : Type 0 where
  pub expected_mbps : Option ℕ
  pub partner_max_mbps : Option ℕ
  pub supported_max_mbps : Option ℕ
  pub partner_autoneg : Option Bool

-- the lower of the two where both are known and not 0
unfoldable pub expected : Option ℕ → Option ℕ → Option ℕ
expected none s = none
expected (some p) none = none
expected (some p) (some s) = if ltb 0 p && ltb 0 s then some (min p s) else none

-- the lines of the tool's output, none where there is no text
unfoldable pub link_expectation : (String → List ℕ) → Option (List Line) → Expectation
link_expectation modes none = record {
  expected_mbps = none;
  partner_max_mbps = none;
  supported_max_mbps = none;
  partner_autoneg = none;
}
link_expectation modes (some lines) =
    let adv = parse_ethtool modes lines in
    record {
      expected_mbps = expected adv.partner_max_mbps adv.supported_max_mbps;
      partner_max_mbps = adv.partner_max_mbps;
      supported_max_mbps = adv.supported_max_mbps;
      partner_autoneg = adv.partner_autoneg;
    }
