-- ===== src/Collector.antt =====
-- The collector agent (01_SMT_DataStream/src/collector): its upload calls and its task machine.
pub mod Models
pub mod Uploader
pub mod Worker
pub mod Backoff
pub mod Machine
pub mod Chunks
pub mod Rounds
