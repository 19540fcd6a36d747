-- ===== src/Bot.antt =====
-- The example bot: contestants/example-bot/src.
pub mod Snapshot
pub mod Listener
