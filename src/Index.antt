-- ===== src/Index.antt =====
-- The immutable segments in memory and the snapshot that searches read
-- (02_SMT_LogTrace/src/indexing).
pub mod Segments
pub mod Snapshot
pub mod Original
