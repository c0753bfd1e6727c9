-- ===== src/Parsing.antt =====
-- The text analysis of 02_SMT_LogTrace/src/indexing.
pub mod Tokenizer
pub mod Csv
pub mod Utf8
pub mod Models
pub mod Runtime
pub mod Report
pub mod Archive
