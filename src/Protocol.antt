-- ===== src/Protocol.antt =====
-- The formats between the simulation and the bots: simulation/src/protocol.
pub mod Submission
pub mod Market
pub mod Feed
