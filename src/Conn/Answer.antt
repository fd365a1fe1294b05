-- ===== src/Conn/Answer.antt =====
-- A request and its answer, from `conn_parse_cmd` of server.cpp to the last byte on the wire.
pub mod Built
pub mod Comes
pub mod Delivers
pub mod Exchange
pub mod Flows
pub mod Full
pub mod Quiet
pub mod Ready
pub mod Sends
pub mod Sending
pub mod Whole
