-- ===== src/Search.antt =====
-- Searching the snapshot (02_SMT_LogTrace/src/search and src/cache/query_cache.cpp).
pub mod Query
pub mod Postings
pub mod Segment
