-- ===== src/Config/Pinning.antt =====
-- What a hot reload of the configuration keeps, reports and changes.
use mathlib.Core.Option.{some-injective}
use text.Mathlib.TextLemmas.{append_cancel_right}
use cc_rms_mqtt_monitor.Base.{
  ◌≡◌, ◌≢◌, ◌↔◌, ◌∙◌, refl, sym, ap, true, none, some, Option, List, String, contains, arith,
}
use cc_rms_mqtt_monitor.Config.{Config}
use cc_rms_mqtt_monitor.Config.Reload.{
  System, File, uid, load_config, changed_fields, reload_config,
}

-- `host_uid` is the host name with the suffix.
abbrev pub IsNamed : System → Config → Type 0
IsNamed sys c =
    (n : String) × (c.host_name ≡ some n) × (c.host_uid ≡ some (uid n sys.instance_suffix))

load_config-IsNamed :
    (sys : System) (file : File) (c : Config) → load_config sys (some file) ≡ some c → IsNamed sys c
unfolding load_config
load_config-IsNamed sys file c h =
    let e = sym (some-injective _ _ h) in
    (_, ap (λ (d : Config). d.host_name) e, ap (λ (d : Config). d.host_uid) e)

-- Whatever the file holds, and whether or not it can be read, a reload keeps the broker, the host
-- name and the topic prefix that the monitor runs with; where it cannot be read, nothing changes and
-- there is no report.
reload-pins :
    (sys : System) (current : Config) (file : Option File)
    → let c = (reload_config sys current file).0 in
      (c.broker ≡ current.broker)
      × (c.host_name ≡ current.host_name)
      × (c.topic_prefix ≡ current.topic_prefix)
      × (reload_config sys current none ≡ (current, none))
unfolding reload_config load_config
reload-pins sys current file = (ground arith, ground arith, ground arith, refl)

-- When the file could be read, the report names the broker, the host name and the topic prefix
-- exactly where the file's value differs from the running one.
reload-reports :
    (sys : System) (current : Config) (file : Option File) (fresh : Config)
    → load_config sys file ≡ some fresh
    → (l : List String) × ((reload_config sys current file).1 ≡ some l)
      × ((contains "broker" l ≡ true) ↔ (fresh.broker ≢ current.broker))
      × ((contains "host_name" l ≡ true) ↔ (fresh.host_name ≢ current.host_name))
      × ((contains "topic_prefix" l ≡ true) ↔ (fresh.topic_prefix ≢ current.topic_prefix))
unfolding reload_config changed_fields contains
reload-reports sys current file fresh h =
    (changed_fields fresh current, ground arith, ground arith, ground arith, ground arith)

uid_injective : (m n suffix : String) → uid m suffix ≡ uid n suffix → m ≡ n
uid_injective m n suffix = append_cancel_right m n _

host_uid-reload :
    (sys : System) (current : Config) (file : File) (fresh : Config)
    → load_config sys (some file) ≡ some fresh
    → (reload_config sys current (some file)).0.host_uid ≡ fresh.host_uid
unfolding reload_config
host_uid-reload sys current file fresh h = ground arith

-- The identity of the host is not pinned: where a running configuration is named after its host
-- name and the file gives another name, the reload keeps the host name and changes `host_uid`.
pub reload-moves_host_uid :
    (sys : System) (current : Config) (file : File) (fresh : Config)
    → IsNamed sys current
    → load_config sys (some file) ≡ some fresh
    → fresh.host_name ≢ current.host_name
    → let c = (reload_config sys current (some file)).0 in
      (c.host_name ≡ current.host_name) × (c.host_uid ≢ current.host_uid)
unfolding reload_config
reload-moves_host_uid sys current file fresh (n, hn, hu) h differ =
    let (m, fm, fu) = load_config-IsNamed sys file fresh h in
    (
      ground arith,
      λ e. differ (
          fm
          ∙ ap some (
              uid_injective _ _ _ (
                some-injective _ _
                  (sym fu ∙ sym (host_uid-reload sys current file fresh h) ∙ e ∙ hu)))
          ∙ sym hn),
    )
