-- ===== src/Upload.antt =====
-- The server's side of an upload (01_SMT_DataStream/src/upload).
pub mod Numbers
pub mod Request
