-- ===== src/Search.antt =====
-- Searching the index: `filter_result`, `Query` and `Get` of prefixmatch.cpp.
pub mod Order
pub mod Set
pub mod Filter
pub mod Query
