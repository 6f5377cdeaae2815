-- ===== src/Core/Tcp.antt =====
-- bytehub_core/src/tcp: the TCP relay.
pub mod Pool
pub mod Connect
pub mod Probe
pub mod Relay
pub mod Proxy
