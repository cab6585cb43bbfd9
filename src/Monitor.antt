-- ===== src/Monitor.antt =====
-- cc_mqtt_monitor/monitor.py: the loop that collects, evaluates and publishes.
pub mod Slug
pub mod Records
pub mod Retry
pub mod Sleep
pub mod Gather
pub mod Effect
pub mod Standby
pub mod Whole
pub mod Forced
pub mod Published
pub mod Consent
pub mod Cycles
pub mod Daemon
