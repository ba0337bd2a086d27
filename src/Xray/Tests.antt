-- ===== src/Xray/Tests.antt =====
-- Concrete configurations, and the theorems of the package `xray` at them.
mod Samples
mod Routes
mod Blocked
mod Applied
mod Checked
mod Streams
