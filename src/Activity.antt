-- ===== src/Activity.antt =====
-- The package `activity`: what the manager reads of the logs of Xray.
pub mod ErrorEvents
pub mod ErrorLog
pub mod Protobuf
mod Tests
