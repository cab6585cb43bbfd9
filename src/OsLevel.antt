-- ===== src/OsLevel.antt =====
-- cc_mqtt_monitor/oslevel.py: the signals of the host.
pub mod Rates
pub mod Counters
pub mod Routes
pub mod KernelLog
pub mod Ethtool
pub mod NicLink
