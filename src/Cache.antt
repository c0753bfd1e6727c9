-- ===== src/Cache.antt =====
-- The in-process caches of 02_SMT_LogTrace.
pub mod Slru
