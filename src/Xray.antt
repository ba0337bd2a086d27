-- ===== src/Xray.antt =====
-- The package `xray`: the Xray configuration and its edits.
pub mod Config
pub mod Cascade
pub mod ClientRoutes
pub mod Blocklist
pub mod Bypass
pub mod Apply
pub mod Inbounds
pub mod Transport
pub mod Invariants
mod Tests
