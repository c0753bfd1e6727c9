-- ===== src/Store/Documents.antt =====
-- 02_SMT_LogTrace/src/indexing/segment_store.cpp: serializeDocuments and loadDocuments.
pub mod RoundTrip
pub mod Loaded
use work_smt.Store.Codec.{
  append_string, append_records, read_string, append_header, read_int64, before, read_header,
  record_invalid, append_int64, read_uint32, load_all, accept, append_uint32, StoreError, ◌>>>◌,
  give, append_uint64, read_uint64, Reader,
}
use work_smt.Base.{
  ◌||◌, is_empty, get_elem?, ◌+◌, none, ◌^◌, ◌%◌, ◌-◌, leb, length, ◌*◌, not, ◌++◌, ◌&&◌, some,
  zero, false, suc, ◌==◌, Bool, [], ◌∷◌, List, ℕ, Option,
}
use work_smt.Index.Snapshot.{local_ids}
use work_smt.Base.Bytes.{codes, Bytes}
use work_smt.Base.Results.{◌>>=◌, ok, Result}
use work_smt.Index.Segments.{SegmentFileRecord, SegmentDocumentRecord}

unfoldable pub document_strings : SegmentDocumentRecord → List Bytes
document_strings d =
    d.line_id ∷ d.station_id ∷ d.device_id ∷ d.collector_id ∷ d.work_order ∷ d.product_sn
    ∷ d.source_type ∷ d.level ∷ d.module_name ∷ d.error_code ∷ d.event_name ∷ []

unfoldable pub document_words : SegmentDocumentRecord → List Bytes
document_words d =
    append_uint64 d.doc_id
    ∷ append_uint32 d.local_id
    ∷ append_uint32 d.file_ordinal
    ∷ append_uint64 d.archive_id
    ∷ append_uint64 d.byte_offset
    ∷ append_uint64 d.byte_length
    ∷ append_int64 d.occurred_at_ms
    ∷ append_int64 d.archived_at_ms
    ∷ append_uint32 d.term_count
    ∷ []

unfoldable pub document_bytes : SegmentDocumentRecord → Result StoreError Bytes
document_bytes d = append_records append_string (document_strings d) >>= λ strings.
    ok (before (document_words d) strings)

unfoldable pub serialize_documents : List SegmentDocumentRecord → Result StoreError Bytes
serialize_documents ds = append_records document_bytes ds >>= λ records.
    ok (append_header (codes "LTDOC001") (length ds) ++ records)

-- The fields of a document, before the checks.
unfoldable pub read_fields : Reader SegmentDocumentRecord
read_fields = read_uint64 >>> λ doc_id. read_uint32 >>> λ local_id. read_uint32 >>> λ file_ordinal.
    read_uint64 >>> λ archive_id. read_uint64 >>> λ byte_offset. read_uint64 >>> λ byte_length.
    read_int64 >>> λ occurred_at_ms. read_int64 >>> λ archived_at_ms. read_uint32 >>> λ term_count.
    read_string >>> λ line_id. read_string >>> λ station_id. read_string >>> λ device_id.
    read_string >>> λ collector_id. read_string >>> λ work_order. read_string >>> λ product_sn.
    read_string >>> λ source_type. read_string >>> λ level. read_string >>> λ module_name.
    read_string >>> λ error_code. read_string >>> λ event_name. give (record {
      doc_id = doc_id;
      local_id = local_id;
      file_ordinal = file_ordinal;
      archive_id = archive_id;
      byte_offset = byte_offset;
      byte_length = byte_length;
      occurred_at_ms = occurred_at_ms;
      archived_at_ms = archived_at_ms;
      term_count = term_count;
      line_id = line_id;
      station_id = station_id;
      device_id = device_id;
      collector_id = collector_id;
      work_order = work_order;
      product_sn = product_sn;
      source_type = source_type;
      level = level;
      module_name = module_name;
      error_code = error_code;
      event_name = event_name;
    })

-- The checks against the file that the document names.
unfoldable pub valid_in_file : Option SegmentFileRecord → SegmentDocumentRecord → Bool
valid_in_file none d = false
valid_in_file (some f) d =
    not (d.byte_length == 0)
    && d.archive_id == f.archive_id
    && leb d.byte_offset f.file_size
    && leb d.byte_length (f.file_size - d.byte_offset)

-- `expected_doc_id` is `(batch_id << 32) | local_id` in 64 bits.
unfoldable pub valid_document : ℕ → List SegmentFileRecord → ℕ → SegmentDocumentRecord → Bool
valid_document batch_id files index d =
    d.local_id == index
    && d.doc_id == batch_id * local_ids % 2 ^ 64 + d.local_id
    && valid_in_file (get_elem? files d.file_ordinal) d
    && not (
        is_empty d.line_id
        || is_empty d.station_id
        || is_empty d.device_id
        || is_empty d.collector_id
        || is_empty d.source_type
        || is_empty d.level
        || is_empty d.module_name)

unfoldable pub read_document : ℕ → List SegmentFileRecord → ℕ → Reader SegmentDocumentRecord
read_document batch_id files index =
    read_fields >>> λ d. accept (valid_document batch_id files index d) record_invalid d

unfoldable pub read_documents :
    ℕ → List SegmentFileRecord → ℕ → ℕ → Reader (List SegmentDocumentRecord)
read_documents batch_id files index zero = give []
read_documents batch_id files index (suc n) = read_document batch_id files index >>> λ d.
    read_documents batch_id files (suc index) n >>> λ ds. give (d ∷ ds)

unfoldable pub load_documents :
    Bytes → ℕ → ℕ → List SegmentFileRecord → Result StoreError (List SegmentDocumentRecord)
load_documents content expected_count batch_id files =
    load_all
      (read_header (codes "LTDOC001") expected_count >>> λ _.
        read_documents batch_id files 0 expected_count)
      content
