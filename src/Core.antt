-- ===== src/Core.antt =====
-- xray_vps_manager/core: what the commands share.
pub mod Fs
pub mod Locks
mod Tests
