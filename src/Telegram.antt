-- ===== src/Telegram.antt =====
-- The Telegram bot: its reader of the updates that users send.
pub mod Updates
mod Tests
