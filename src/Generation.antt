-- ===== src/Generation.antt =====
-- The generation of markets and feeds: simulation/src/generation.
pub mod Config
pub mod Math
pub mod Random
pub mod Market
pub mod Feed
pub mod Whole
