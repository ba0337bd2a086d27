-- ===== src/Traffic.antt =====
-- The accounting of traffic: xray_vps_manager/traffic and commands/traffic_sync.py.
pub mod History
pub mod Period
pub mod Entry
pub mod Repair
pub mod Sync
mod Tests
