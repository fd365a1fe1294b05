-- ===== src/Letters.antt =====
-- The Chinese map and the spellings of a text: `read_chinese_map`, `get_all_results`,
-- `all_english_char` and `convert_to_letters`, which prefixmatch.cpp and indexer.cpp both have.
pub mod Product
pub mod Table
pub mod Convert
