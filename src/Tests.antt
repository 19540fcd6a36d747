-- ===== src/Tests.antt =====
-- Runs of the models on concrete inputs, and the theorems at these inputs.
mod Trades
mod Frames
mod Streams
mod Ticks
mod Snapshots
mod Settings
mod Generated
mod Boots
mod Stages
