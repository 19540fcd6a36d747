-- ===== src/Net.antt =====
-- The network threads: simulation/src/net.
pub mod Tcp
pub mod Http
pub mod Udp
