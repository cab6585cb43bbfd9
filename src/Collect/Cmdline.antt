-- ===== src/Collect/Cmdline.antt =====
-- The arguments of a capture process in `_process_config_path` of cc_mqtt_monitor/collect.py.
use cc_rms_mqtt_monitor.Base.{
  String, ◌||◌, Option, none, some, List, [], ◌∷◌, if◌then◌else◌, str_eq, has_prefix, after_equals,
}

-- the value of the first `-c` or `--config` argument
unfoldable pub config_arg : List String → Option String
config_arg [] = none
config_arg (a ∷ []) =
    if has_prefix "--config=" a || has_prefix "-c=" a then some (after_equals a) else none
config_arg (a ∷ b ∷ rest) =
    let later = config_arg (b ∷ rest) in
    if str_eq a "-c" || str_eq a "--config"
    then some b
    else if has_prefix "--config=" a || has_prefix "-c=" a
    then some (after_equals a)
    else later

-- `cfg or ".config"`
unfoldable pub or_default : Option String → String
or_default none = ".config"
or_default (some c) = if str_eq c "" then ".config" else c
