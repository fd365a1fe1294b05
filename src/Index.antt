-- ===== src/Index.antt =====
-- The index: its building in indexer.cpp, and its loading and reloading in prefixmatch.cpp.
pub mod Build
pub mod Tail
pub mod Reload
