-- ===== src/Tests/Boots.antt =====
-- The boot marker of cc_mqtt_monitor/bootmarker.py over concrete boots.
use cc_rms_mqtt_monitor.Base.{
  String, ◌≡◌, ◌≢◌, refl, true, false, none, some, List, [], ◌∷◌, str_eq, eq_iff,
}
use cc_rms_mqtt_monitor.BootMarker.{
  Marker, MarkerState, World, has_boot_id, start, heartbeat, stop, metrics,
}
use cc_rms_mqtt_monitor.BootMarker.Keeping.{
  Event, after, Ending, ending, deserved, begin, tick, end,
}
use cc_rms_mqtt_monitor.BootMarker.Lives.{next_boot_verdict}
use cc_rms_mqtt_monitor.BootMarker.Shadow.{Shadowed, Shadowed-marker}

abbrev old : Marker
old = record {
  boot_id = "boot-a";
  state = MarkerState.live;
  ts = 0;
  last_shutdown = none;
  last_shutdown_ts = none;
}

-- one file that can be written
abbrev world : World
world = record { files = record { content = some old; writable = true } ∷ []; last_beat = 0 }

-- the first file holds the record of another boot and cannot be written
abbrev shadowed : World
shadowed = record world {
  files =
      record { content = some old; writable = false }
      ∷ record { content = none; writable = true }
      ∷ [];
}

-- started, one heartbeat, restarted, stopped with the system; the last event first
abbrev events : List Event
events = end true 400000 ∷ begin 300000 ∷ tick false 200000 ∷ begin 1000 ∷ []

differ : (s t : String) → str_eq s t ≡ false → s ≢ t
differ s t h e = cc (h, (eq_iff s t).1 e)

ended : ending events ≢ Ending.never
ended e = cc e

next_boot_verdict_example :
    (metrics
      (some "boot-c")
      900000
      (start (some "boot-c") 800000 (after "boot-b" events world))).last_shutdown
    ≡ some (deserved (ending events))
next_boot_verdict_example =
    next_boot_verdict "boot-b" "boot-c" world events 800000 900000 refl refl
      (differ "boot-b" "boot-c" refl) tt (refl, (refl, tt)) ended

named : has_boot_id old ≡ true
unfolding has_boot_id
named = refl

Shadowed-marker_example :
    let w' = start (some "boot-b") 1000 shadowed in
    Shadowed "boot-a" w'
    × (heartbeat true (some "boot-b") 2000 w' ≡ w')
    × (stop (some "boot-b") true 3000 w' ≡ w')
    × ((metrics (some "boot-b") 4000 w').last_shutdown ≡ none)
Shadowed-marker_example =
    Shadowed-marker "boot-a" "boot-b" shadowed 1000 2000 3000 4000 true true
      (differ "boot-a" "boot-b" refl) (old, _, _, refl, refl, refl, named, refl)
