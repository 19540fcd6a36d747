-- ===== src/Engine.antt =====
-- The engine of the simulation: simulation/src/engine.
pub mod Contestant
pub mod Evaluate
pub mod Runloop
pub mod Stats
