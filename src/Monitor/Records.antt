-- ===== src/Monitor/Records.antt =====
-- `decorate` of `gather`, and `gather_host`, in cc_mqtt_monitor/monitor.py: the records that are published.
-- What the collectors of the host return, the interface that leads to a camera, the age of a
-- capture, git and the maintenance state are inputs.
pub mod Traces
use mathlib.Core.Option
use cc_rms_mqtt_monitor.Base.{
  ℕ, ◌+◌, ◌*◌, ◌/◌, String, Bool, true, false, Option, none, some, List, [], ◌∷◌, ◌==◌, map, filter,
  any, if◌then◌else◌, str_eq, codes, ℤ, pos, negsuc, sub_ℕ, ltb_ℤ, or_else,
}
use cc_rms_mqtt_monitor.Config.{Config}
use cc_rms_mqtt_monitor.Discovery.{Station, has_location}
use cc_rms_mqtt_monitor.Health.Metrics.{StationMetrics, HostMetrics}
use cc_rms_mqtt_monitor.Health.State.{State, build_host_state}
use cc_rms_mqtt_monitor.Collect.Files.{name_lt}
use cc_rms_mqtt_monitor.Collect.Repo.{RepoStatus}
use cc_rms_mqtt_monitor.Monitor.Consent.{is_publishable}
use cc_rms_mqtt_monitor.Monitor.Slug.{slug}

-- the fields that every record has, an absent branch or remote left out
pub record Shared : Type 0 where
  pub maintenance : Bool
  pub maintenance_reason : Option String
  pub rms_branch : Option String
  pub rms_remote : Option String
  pub repo : RepoStatus

unfoldable pub is_text : Option String → Bool
is_text none = false
is_text (some s) = if str_eq s "" then false else true

-- `config.group or station.camera_group_name`
unfoldable pub station_group : Option String → Station → Option String
station_group group s = if is_text group then group else s.camera_group_name

unfoldable pub group_slug : Option String → Option (List ℕ)
group_slug group = slug (Option.map codes group)

-- `round(x, 2)` of thousandths of a degree
unfoldable pub round_2 : ℤ → ℤ
round_2 (pos n) = pos ((n + 5) / 10 * 10)
round_2 (negsuc n) = sub_ℕ 0 ((n + 1 + 5) / 10 * 10)

pub record Decorated : Type 0 where
  pub state : State StationMetrics
  pub group : Option String
  pub group_slug : Option (List ℕ)
  pub shared : Shared
  pub lat : Option ℤ
  pub lon : Option ℤ

unfoldable pub decorate : Option String → Shared → State StationMetrics → Station → Decorated
decorate config_group shared state s =
    let group = station_group config_group s in
    record {
      state = state;
      group = group;
      group_slug = group_slug group;
      shared = shared;
      lat = if has_location s then some (round_2 s.latitude) else none;
      lon = if has_location s then some (round_2 s.longitude) else none;
    }

-- `_consenting_stations`
unfoldable pub consenting : List Station → List Station
consenting = filter is_publishable

-- a set of texts, in order
unfoldable pub insert_name : String → List String → List String
insert_name x [] = x ∷ []
insert_name x (y ∷ ys) =
    let rest = insert_name x ys in
    if str_eq x y then y ∷ ys else if name_lt x y then x ∷ y ∷ ys else y ∷ rest

-- those of the texts that are there and not empty, as a set
unfoldable pub set_of : List (Option String) → List String
set_of [] = []
set_of (o ∷ os) = elim o [
  | none ↦ set_of os
  | some x ↦ if str_eq x "" then set_of os else insert_name x (set_of os)
]

-- what the host is asked for
pub record Machine : Type 0 where
  pub iface_for_ip : String → Option String
  -- with the UDP counters or not, of these interfaces or of all, for these directories
  pub collect_host : Bool → Option (List String) → List String → HostMetrics
  -- `collect_process(s).get("capture_age_s")`, none where it raises
  pub capture_age : Station → Option ℤ

-- `cam_ifaces or None`
unfoldable pub or_all : List String → Option (List String)
or_all [] = none
or_all (x ∷ xs) = some (x ∷ xs)

unfoldable pub iface_of : Machine → Option String → Option String
iface_of m none = none
iface_of m (some host) = if str_eq host "" then none else m.iface_for_ip host

-- `min(ages)` of those that are known, and none where none is
unfoldable pub min_age : List (Option ℤ) → Option ℤ
min_age [] = none
min_age (none ∷ rest) = min_age rest
min_age (some a ∷ rest) = elim (min_age rest) [
  | none ↦ some a
  | some b ↦ some (if ltb_ℤ b a then b else a)
]

unfoldable pub restart_age : Machine → List Station → HostMetrics → HostMetrics
restart_age m ss h = if h.oom_kill_count == 0 then h else elim (min_age (map m.capture_age ss)) [
  | none ↦ h
  | some age ↦ record h { capture_restart_age_s = some age }
]

pub record HostRecord : Type 0 where
  pub state : State HostMetrics
  pub groups : List String
  pub group_slugs : List (Option (List ℕ))
  pub station_ids : List String
  pub shared : Shared

-- what the configuration and the clock give
pub record Setup : Type 0 where
  pub config : Config
  pub timestamp : String
  pub shared : Shared

unfoldable pub host_metrics : Machine → List Station → HostMetrics
host_metrics m ss = restart_age m ss (
    m.collect_host (any (λ (s : Station). str_eq s.protocol "udp") ss)
      (or_all (set_of (map (λ (s : Station). iface_of m s.camera_host) ss)))
      (set_of (map (λ (s : Station). some s.data_dir) ss)))

unfoldable pub host_record : Machine → Setup → List Station → HostRecord
host_record m c ss =
    let groups = set_of (map (station_group c.config.group) ss) in
    record {
      state =
          build_host_state (host_metrics m ss) c.config.thresholds (or_else c.config.host_uid "")
            c.timestamp c.config.disabled_checks c.config.host_name;
      groups = groups;
      group_slugs = map (λ g. slug (some (codes g))) groups;
      station_ids = map (λ (s : Station). s.station_id) ss;
      shared = c.shared;
    }

unfoldable pub or_silent : Machine → Setup → List Station → Option HostRecord
or_silent m c [] = none
or_silent m c (s ∷ ss) = some (host_record m c (s ∷ ss))

-- `gather_host` of the stations that are discovered
unfoldable pub gather_host : Machine → Setup → List Station → Option HostRecord
gather_host m c stations = or_silent m c (consenting stations)
