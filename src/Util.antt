-- ===== src/Util.antt =====
-- util.cpp: string helpers that the server and the indexer share.
pub mod Chars
pub mod Trim
pub mod Sep
pub mod Utf8
pub mod Delstr
pub mod Fields
pub mod Tokens
