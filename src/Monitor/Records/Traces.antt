-- ===== src/Monitor/Records/Traces.antt =====
-- Which stations the host's record of `gather_host` in cc_mqtt_monitor/monitor.py tells of.
use cc_rms_mqtt_monitor.Base.{
  ◌≡◌, String, Bool, false, Option, none, some, List, [], ◌∷◌, str_eq, All,
}
use cc_rms_mqtt_monitor.Collect.Files.{name_lt}

-- The second text differs from the first and does not sort before it.
abbrev Before : String → String → Type 0
Before x y = (name_lt y x ≡ false) × (str_eq x y ≡ false)

abbrev pub Ascending : List String → Type 0
Ascending [] = Unit
Ascending (x ∷ xs) = All (Before x) xs × Ascending xs

-- whether it is the text
unfoldable pub is_named : String → Option String → Bool
is_named g none = false
is_named g (some x) = str_eq x g
