-- ===== src/Clients.antt =====
-- xray_vps_manager/clients: what the manager keeps of a client.
pub mod Email
pub mod Access
pub mod Limits
pub mod Entry
pub mod Credentials
pub mod Status
mod Tests
