-- ===== src/Collect.antt =====
-- cc_mqtt_monitor/collect.py: what is read of one station.
pub mod Cmdline
pub mod Process
pub mod Disconnects
pub mod Events
pub mod Buffer
pub mod Logs
pub mod Repo
pub mod Files
pub mod Outputs
pub mod Segments
pub mod Platepar
pub mod Journal
pub mod Mode
pub mod Station
