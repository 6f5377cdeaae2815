-- ===== src/Core/Udp.antt =====
-- bytehub_core/src/udp.
pub mod Group
pub mod Batched
pub mod SockMap
pub mod Relay
