-- ===== src/Core.antt =====
-- bytehub_core: the relay of connections.
pub mod Endpoint
pub mod Options
pub mod Tcp
pub mod Udp
