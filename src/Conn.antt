-- ===== src/Conn.antt =====
-- A connection: conn.h and conn.cpp, the reading of network.cpp, and the protocol and state machine
-- of server.cpp.
pub mod State
pub mod Output
pub mod Pool
pub mod Read
pub mod Command
pub mod Life
pub mod Machine
pub mod Answer
