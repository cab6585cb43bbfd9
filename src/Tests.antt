-- ===== src/Tests.antt =====
-- The theorems applied to concrete stations, hosts, files and runs of cycles.
pub mod Samples
mod Verdicts
mod Causes
mod Collected
pub mod Logs
mod Stations
mod Kernel
mod Runs
mod Boots
pub mod Brokers
mod Expected
mod Found
mod Redacted
mod Rounds
mod Whole
