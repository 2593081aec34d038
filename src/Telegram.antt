-- ===== src/Telegram.antt =====
-- internal/telegram: the Telegram hub.
pub mod Topics
pub mod Asks
pub mod Hub
