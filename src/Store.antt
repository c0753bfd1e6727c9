-- ===== src/Store.antt =====
-- The segment files on disk (02_SMT_LogTrace/src/indexing/segment_store.cpp).
pub mod Codec
pub mod Files
pub mod Documents
pub mod Postings
pub mod Terms
pub mod Load
pub mod Build
