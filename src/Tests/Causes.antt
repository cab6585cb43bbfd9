-- ===== src/Tests/Causes.antt =====
-- Causes of dropped frames and the need of a probe on concrete metrics.
use cc_rms_mqtt_monitor.Base.{
  ℕ, ◌≡◌, ◌≤◌, ◌⊎◌, ◌↔◌, refl, true, List, [], ◌∷◌, arith, min, lookup, ◌+◌,
}
use cc_rms_mqtt_monitor.Config.{default_thresholds}
use cc_rms_mqtt_monitor.Health.Metrics.{StationMetrics, no_metrics, no_host_metrics, hot}
use cc_rms_mqtt_monitor.Health.Drops.{
  classify_drops, attribute, is_backpressure, by_network, by_stream,
}
use cc_rms_mqtt_monitor.Diagnose.{Escalation, should_escalate, explained, host_explained, is_due}
use cc_rms_mqtt_monitor.Diagnose.Need.{Told, Waited, should_escalate_iff}
use cc_rms_mqtt_monitor.Diagnose.Backoff.{Cycle, probes, Spaced, InLimits, probes-Spaced}

-- a burst of drops after two reconnects
abbrev pub dropping : StationMetrics
dropping = record (no_metrics "US0001") {
  capture_alive = true;
  dropped_frames_10min = 400;
  pipeline_reconnects = 2;
}

abbrev held : Escalation
held = record { next_t = 900000; interval = 600000 }

should_escalate_iff_example :
    ((should_escalate "US0001" dropping no_host_metrics default_thresholds 950000
        (("US0001", held) ∷ [])).0
      ≡ true)
    ↔ ((default_thresholds.dropped_frames_warn ≤ 400)
        × ((dropping.dropped_frames_10min ≡ 0) ⊎ ¬ Told dropping no_host_metrics default_thresholds)
        × Waited (lookup "US0001" (("US0001", held) ∷ [])) 950000)
should_escalate_iff_example =
    should_escalate_iff "US0001" dropping no_host_metrics default_thresholds 950000
      (("US0001", held) ∷ [])

-- the interval has passed
probe_asked :
    (should_escalate "US0001" dropping no_host_metrics default_thresholds 950000
      (("US0001", held) ∷ [])).0
    ≡ true
unfolding should_escalate explained host_explained classify_drops attribute is_backpressure
    by_network by_stream hot is_due lookup
probe_asked = refl

abbrev cycle : ℕ → Cycle
cycle t = record { metrics = dropping; host = no_host_metrics; tested = t; done = t + 40000 }

abbrev cycles : List Cycle
cycles = cycle 0 ∷ cycle 60000 ∷ cycle 700000 ∷ cycle 2000000 ∷ []

no_limits : InLimits default_thresholds (lookup "US0001" [])
unfolding lookup
no_limits = tt

probes-Spaced_example :
    Spaced
      (min default_thresholds.probe_min_interval_s default_thresholds.probe_max_interval_s)
      (probes default_thresholds "US0001" [] cycles)
probes-Spaced_example =
    probes-Spaced default_thresholds "US0001" cycles []
      (
        omega arith,
        omega arith,
        (omega arith, omega arith, (omega arith, omega arith, (omega arith, omega arith, tt))),
      )
      no_limits
