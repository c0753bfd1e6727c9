-- ===== src/Tests/Store.antt =====
-- A segment written to its files and loaded again.
use work_smt.Base.{
  ◌≢◌, inl, true, ◌≤◌, false, ◌==◌, refl, not, ltb, some, ◌<◌, ◌≡◌, [], ◌+◌, arith, length, ◌∷◌,
  ◌*◌, All, ℕ, List,
}
use work_smt.Search.Segment.{search_segments}
use work_smt.Index.Snapshot.{
  empty_snapshot, add_segment, add_segments, find_document, IndexSnapshot, make_snapshot,
}
use work_smt.Store.Load.Searchable.{search_segments-IsLoaded, IsLoaded}
use work_smt.Store.Load.Documents.{find_document-IsLoaded}
use work_smt.Search.Segment.Scan.{scan_all}
use work_smt.Search.Query.{SearchQuery}
use work_smt.Store.Postings.{
  read_posting, read_postings, serialize_postings, valid_posting, load_postings, postings_bytes,
  posting_bytes,
}
use work_smt.Store.Documents.{
  read_fields, read_document, read_documents, document_strings, document_bytes, valid_in_file,
  load_documents, valid_document, serialize_documents, document_words,
}
use work_smt.Store.Codec.{
  outside_of_table, record_invalid, bytes_to_sha256, read_header, load_all, is_hex, all_hex,
  valid_sha256, append_sha256_bytes, append_string, append_records, StoreError, ◌>>>◌, read_uint32,
  read_uint64, read_int64, read_string, read_bytes, require_magic, word, to_signed, finish,
  append_header, append_uint32, append_uint64, append_int64, append_word, to_unsigned, pack_hex,
  hex_value, unpack_hex, hex_digit,
}
use work_smt.Store.Files.{
  read_sha256, read_file, read_files, file_bytes, has_archive, serialize_files, load_files,
  valid_file,
}
use work_smt.Store.Load.{
  same_time, total_terms, greatest_time, least_time, valid_statistics, load_tables, valid_content,
  valid_contents, valid_fact, valid_facts, valid_manifest, times_of, manifest_of, assemble,
  load_segment, SegmentFiles, StorePlatform, Manifest, ArtifactFact, binary_limit,
}
use work_smt.Store.Terms.RoundTrip.{check_all, load_terms-serialize_terms}
use work_smt.Store.Terms.{
  string_less, assign, add_term, increasing_after, increasing, term_bytes, valid_term, check_term,
  load_terms, serialize_terms, no_terms, TermTable, read_terms, read_term,
}
use work_smt.Store.Terms.Safe.{load_terms-inside}
use work_smt.Store.Documents.RoundTrip.{
  AreWritableDocuments, load_documents-serialize_documents, HasWidths,
}
use work_smt.Store.Files.RoundTrip.{AreWritableFiles, load_files-serialize_files}
use work_smt.Index.Segments.{
  LoadedSegment, SegmentTermRecord, SegmentDocumentRecord, SegmentPosting, SegmentFileRecord,
}
use work_smt.Base.Ints.{negsuc, pos}
use work_smt.Store.Postings.RoundTrip.{load_postings-serialize_postings, IsWritable}
use work_smt.Base.Results.{thrown, ok, Result}
use work_smt.Search.Postings.{read_local_ids}
use work_smt.Base.Bytes.{codes, Bytes}

abbrev pub sha : Bytes
sha = codes "00112233445566778899aabbccddeeff00112233445566778899aabbccddeeff"

abbrev pub file : SegmentFileRecord
file = record { archive_id = 7; file_size = 90; file_sha256 = sha; relative_path = codes "x.log" }

abbrev pub document : ℕ → Bytes → SegmentDocumentRecord
document local level = record {
  doc_id = 3 * 4294967296 + local;
  local_id = local;
  file_ordinal = 0;
  archive_id = 7;
  byte_offset = 40 * local;
  byte_length = 40;
  occurred_at_ms = pos 1000;
  archived_at_ms = negsuc 2;
  term_count = 2;
  line_id = codes "L1";
  station_id = codes "S1";
  device_id = codes "D1";
  collector_id = codes "C1";
  work_order = [];
  product_sn = [];
  source_type = codes "RUNTIME_LOG";
  level = level;
  module_name = codes "aoi";
  error_code = [];
  event_name = codes "e";
}

abbrev pub documents : List SegmentDocumentRecord
documents = document 0 (codes "INFO") ∷ document 1 (codes "ERROR") ∷ []

abbrev pub postings : List SegmentPosting
postings =
    record { local_id = 0; term_frequency = 2 }
    ∷ record { local_id = 1; term_frequency = 1 }
    ∷ record { local_id = 1; term_frequency = 1 }
    ∷ []

abbrev pub terms : List SegmentTermRecord
terms =
    record { term = codes "e-42"; document_frequency = 2; posting_begin = 0; posting_count = 2 }
    ∷ record { term = codes "jam"; document_frequency = 1; posting_begin = 2; posting_count = 1 }
    ∷ []

abbrev table : TermTable
table = record {
  terms = terms;
  lookup = (codes "e-42", 0) ∷ (codes "jam", 1) ∷ [];
  expected_begin = 3;
  previous = codes "jam";
}

-- The bytes that were written, or none.
abbrev written : Result StoreError Bytes → Bytes
written (ok bytes) = bytes
written (thrown e) = []

postings-IsWritable : All (IsWritable 2) postings
unfolding valid_posting
postings-IsWritable = ground arith

load_postings-serialize_postings_example :
    load_postings (serialize_postings postings) (length postings) 2 ≡ ok postings
load_postings-serialize_postings_example =
    load_postings-serialize_postings 2 postings (omega arith) postings-IsWritable

files_content : serialize_files (file ∷ []) ≡ ok (written (serialize_files (file ∷ [])))
unfolding serialize_files append_records file_bytes append_sha256_bytes append_string valid_sha256
    all_hex is_hex
files_content = refl

files-writable : AreWritableFiles [] (file ∷ [])
unfolding valid_file has_archive
files-writable = ((omega arith, omega arith, refl), tt)

load_files-serialize_files_example :
    load_files (written (serialize_files (file ∷ []))) 1 ≡ ok (file ∷ [])
load_files-serialize_files_example =
    load_files-serialize_files (file ∷ []) (written (serialize_files (file ∷ []))) (omega arith)
      files-writable files_content

documents_content : serialize_documents documents ≡ ok (written (serialize_documents documents))
unfolding serialize_documents append_records document_bytes append_string document_strings
documents_content = refl

document-widths : (i : ℕ) (level : Bytes) → i < 2 → HasWidths (document i level)
document-widths i level h = record {
  doc_id = omega arith;
  local_id = omega arith;
  file_ordinal = omega arith;
  archive_id = omega arith;
  byte_offset = omega arith;
  byte_length = omega arith;
  occurred_at_ms = omega arith;
  archived_at_ms = omega arith;
  term_count = omega arith;
}

documents-writable : AreWritableDocuments 3 (file ∷ []) 0 documents
unfolding valid_document valid_in_file
documents-writable = (
  (document-widths 0 (codes "INFO") (omega arith), refl),
  ((document-widths 1 (codes "ERROR") (omega arith), refl), tt),
)

load_documents-serialize_documents_example :
    load_documents (written (serialize_documents documents)) 2 3 (file ∷ []) ≡ ok documents
load_documents-serialize_documents_example =
    load_documents-serialize_documents 3 (file ∷ []) documents
      (written (serialize_documents documents)) (omega arith) documents-writable documents_content

terms_content : serialize_terms terms ≡ ok (written (serialize_terms terms))
unfolding serialize_terms append_records term_bytes append_string
terms_content = refl

terms_checked : check_all postings no_terms terms ≡ ok table
unfolding no_terms check_term valid_term increasing increasing_after read_local_ids add_term assign
    string_less
terms_checked = refl

load_terms-serialize_terms_example :
    (load_terms (written (serialize_terms terms)) 2 postings ≡ ok table) × (terms ≡ terms)
load_terms-serialize_terms_example =
    load_terms-serialize_terms postings terms table (written (serialize_terms terms)) (omega arith)
      ((omega arith, omega arith, omega arith), ((omega arith, omega arith, omega arith), tt))
      terms_checked refl terms_content

-- A parser that knows one manifest, and a digest that is always the same.
abbrev fact : Bytes → ArtifactFact
fact content = record { size = length content; sha256 = sha }

abbrev pub contents : SegmentFiles
contents = record {
  manifest = codes "{}";
  documents = written (serialize_documents documents);
  files = written (serialize_files (file ∷ []));
  postings = serialize_postings postings;
  terms = written (serialize_terms terms);
}

abbrev manifest : Manifest ℕ
manifest = record {
  format_version = 1;
  batch_id = 3;
  first_archive_id = 7;
  last_archive_id = 7;
  segment_name = codes "segment_3";
  parsed_file_count = 1;
  source_file_count = 1;
  document_count = 2;
  term_count = 2;
  posting_count = 3;
  average_document_length = 2;
  min_occurred_at = codes "a";
  max_occurred_at = codes "a";
  created_at = codes "a";
  documents_fact = fact contents.documents;
  files_fact = fact contents.files;
  postings_fact = fact contents.postings;
  terms_fact = fact contents.terms;
}

abbrev pub platform : StorePlatform
platform = record {
  Double = ℕ;
  sha256_hex = λ content. sha;
  read_time = λ text. some (pos 1000);
  read_manifest = λ text. some manifest;
  is_positive = λ x. ltb 0 x;
  differs_from_average = λ total count average. not (total == count * average);
}

abbrev pub segment : LoadedSegment
segment = assemble platform manifest sha (pos 1000) (pos 1000) (file ∷ []) documents postings table

segment_loads : load_segment platform (codes "segment_3") 3 [] contents ≡ ok segment
unfolding load_segment manifest_of times_of valid_manifest valid_facts valid_fact valid_contents
    valid_content load_tables valid_statistics least_time greatest_time total_terms same_time
    load_files load_documents load_postings load_terms load_all read_header read_files read_file
    read_sha256 bytes_to_sha256 valid_file has_archive read_documents read_document read_fields
    valid_document valid_in_file read_postings read_posting valid_posting read_terms read_term
    no_terms check_term valid_term increasing increasing_after read_local_ids add_term assign
    string_less ◌>>>◌ read_uint32 read_uint64 read_int64 read_string read_bytes require_magic word
    to_signed finish serialize_files serialize_documents serialize_postings serialize_terms
    append_records file_bytes document_bytes document_strings document_words postings_bytes
    posting_bytes term_bytes append_string append_header append_uint32 append_uint64 append_int64
    append_word to_unsigned append_sha256_bytes pack_hex hex_value unpack_hex hex_digit valid_sha256
    all_hex is_hex binary_limit assemble
segment_loads = refl

pub segment-IsLoaded : IsLoaded platform segment
segment-IsLoaded = record {
  name = codes "segment_3";
  batch_id = 3;
  sha = [];
  contents = contents;
  loads = segment_loads;
}

abbrev pub snapshot : IndexSnapshot
snapshot = record { segments = segment ∷ []; version = 3; document_count = 2 }

snapshot_made : make_snapshot (some segment ∷ []) ≡ some snapshot
unfolding make_snapshot add_segments add_segment empty_snapshot assemble
snapshot_made = refl

find_document-IsLoaded_example :
    (f : SegmentFileRecord) × (find_document 12884901889 snapshot
      ≡ some (document 1 (codes "ERROR"), f))
    × (1 ≤ 40)
    × (7 ≡ f.archive_id)
    × (40 + 40 ≤ f.file_size)
unfolding assemble
find_document-IsLoaded_example =
    find_document-IsLoaded platform (some segment ∷ []) snapshot segment 1
      (document 1 (codes "ERROR")) snapshot_made (inl refl) segment-IsLoaded (omega arith) refl

abbrev pub query : SearchQuery
query = record {
  keywords = codes "jam" ∷ [];
  line_id = codes "L1";
  station_id = [];
  device_id = [];
  work_order = [];
  product_sn = [];
  levels = [];
  module_name = [];
  error_code = [];
  has_time_range = false;
  occurred_from_ms = pos 0;
  occurred_to_ms = pos 0;
  anomaly_only = true;
  offset = 0;
  page_size = 10;
}

search_segments-IsLoaded_example :
    search_segments (segment ∷ []) query (codes "jam" ∷ [])
    ≡ some (scan_all (segment ∷ []) query (codes "jam" ∷ []))
search_segments-IsLoaded_example =
    search_segments-IsLoaded platform (segment ∷ []) query (codes "jam" ∷ []) (segment-IsLoaded, tt)

-- Terms whose postings are not in the table.
outside_test : load_terms (written (serialize_terms terms)) 2 [] ≡ thrown record_invalid
unfolding load_terms load_all read_header require_magic read_terms read_term read_string read_uint32
    read_uint64 read_bytes word no_terms check_term valid_term serialize_terms term_bytes
    append_records append_string append_header append_uint32 append_uint64 append_word ◌>>>◌
outside_test = refl

load_terms-inside_example :
    load_terms (written (serialize_terms terms)) 2 [] ≢ thrown outside_of_table
load_terms-inside_example = load_terms-inside (written (serialize_terms terms)) 2 []
