-- ===== src/Index/Segments.antt =====
-- 02_SMT_LogTrace/include/logtrace/indexing/segment_models.h: the records of a loaded segment.
-- The statistic `average_document_length` is a double that no modelled code reads; it is left out.
use work_smt.Base.{List, ℕ}
use work_smt.Base.Ints.{ℤ}
use work_smt.Base.Bytes.{Bytes}

pub record SegmentFileRecord : Type 0 where
  pub archive_id : ℕ
  pub file_size : ℕ
  pub file_sha256 : Bytes
  pub relative_path : Bytes

pub record SegmentDocumentRecord : Type 0 where
  pub doc_id : ℕ
  pub local_id : ℕ
  pub file_ordinal : ℕ
  pub archive_id : ℕ
  pub byte_offset : ℕ
  pub byte_length : ℕ
  pub occurred_at_ms : ℤ
  pub archived_at_ms : ℤ
  pub term_count : ℕ
  pub line_id : Bytes
  pub station_id : Bytes
  pub device_id : Bytes
  pub collector_id : Bytes
  pub work_order : Bytes
  pub product_sn : Bytes
  pub source_type : Bytes
  pub level : Bytes
  pub module_name : Bytes
  pub error_code : Bytes
  pub event_name : Bytes

pub record SegmentPosting : Type 0 where
  pub local_id : ℕ
  pub term_frequency : ℕ

pub record SegmentTermRecord : Type 0 where
  pub term : Bytes
  pub document_frequency : ℕ
  pub posting_begin : ℕ
  pub posting_count : ℕ

pub record LoadedSegment : Type 0 where
  pub format_version : ℕ
  pub batch_id : ℕ
  pub first_archive_id : ℕ
  pub last_archive_id : ℕ
  pub source_file_count : ℕ
  pub parsed_file_count : ℕ
  pub segment_name : Bytes
  pub manifest_sha256 : Bytes
  pub min_occurred_at_ms : ℤ
  pub max_occurred_at_ms : ℤ
  pub files : List SegmentFileRecord
  pub documents : List SegmentDocumentRecord
  pub postings : List SegmentPosting
  pub terms : List SegmentTermRecord
  pub term_lookup : List (Bytes × ℕ)
