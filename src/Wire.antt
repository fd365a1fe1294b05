-- ===== src/Wire.antt =====
-- The wire format: the headers of head.h, the body that `complete_nread` of server.cpp writes, and
-- the reader of client.c. The host is little-endian, as `memcpy` of an integer shows.
pub mod Words
pub mod Response
