-- ===== src/Net.antt =====
-- The sockets of network.cpp.
pub mod Accept
pub mod Sndbuf
pub mod Sockets
