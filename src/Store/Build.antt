-- ===== src/Store/Build.antt =====
-- 02_SMT_LogTrace/src/indexing/segment_store.cpp: SegmentStore::build up to the tables that it writes:
-- the files, the documents and the inverted index. The file system, the reading of a record and the
-- reading of a time are the parameter `BuildPlatform`.
pub mod Inverted
pub mod Index
pub mod Records
pub mod Meaning
use work_smt.Base.{
  ltb, ◌||◌, ◌%◌, ◌+◌, is_empty, if◌then◌else◌, ◌==◌, ◌++◌, suc, not, [], length, ◌&&◌, leb, ◌-◌,
  some, ◌∷◌, ◌*◌, true, Bool, none, ◌^◌, map, ℕ, Option, List,
}
use work_smt.Search.Segment.{find_index}
use work_smt.Collector.Uploader.{or_else}
use work_smt.Store.Terms.{string_less}
use work_smt.Base.SortedMap.{alter}
use work_smt.Index.Snapshot.{local_ids}
use work_smt.Index.Segments.{
  SegmentTermRecord, SegmentDocumentRecord, SegmentPosting, SegmentFileRecord,
}
use work_smt.Base.Results.{ensure, ◌>>=◌, thrown, ok, Result}
use work_smt.Parsing.Tokenizer.{tokenize_terms}
use work_smt.Base.Ints.{ℤ}
use work_smt.Base.Bytes.{Bytes}
use work_smt.Parsing.Models.{ParsedDocument, ArchiveRecord}

pub data BuildError : Type 0 where
  not_representable : BuildError
  archive_changed : BuildError
  unknown_file : BuildError
  record_unreadable : BuildError
  term_count_changed : BuildError
  term_frequency_exceeded : BuildError
  time_invalid : BuildError
  document_frequency_exceeded : BuildError
  no_searchable_terms : BuildError

pub record ParsedArtifactDocument : Type 0 where
  pub local_id : ℕ
  pub document : ParsedDocument

-- The parts of `ParsedBatchData` that the tables are built from.
pub record ParsedBatch : Type 0 where
  pub batch_id : ℕ
  pub files : List ArchiveRecord
  pub documents : List ParsedArtifactDocument

pub record BuildPlatform : Type 0 where
  -- `verifyOriginalArchive` does not throw.
  pub is_unchanged : SegmentFileRecord → Bool
  -- `readOriginalRecord` at an offset and a length, `none` when it throws.
  pub read_record : SegmentFileRecord → ℕ → ℕ → Option Bytes
  pub read_time : Bytes → Option ℤ

abbrev pub uint32_max : ℕ
uint32_max = 2 ^ 32 - 1

unfoldable pub file_record : ArchiveRecord → SegmentFileRecord
file_record a = record {
  archive_id = a.archive_id;
  file_size = a.file_size;
  file_sha256 = a.file_sha256;
  relative_path = a.relative_path;
}

-- The file of the last place that has the archive id, with its place: the map `file_ordinals`, in which
-- a later assignment replaces an earlier one.
unfoldable pub find_file : ℕ → ℕ → List SegmentFileRecord → Option (ℕ × SegmentFileRecord)
find_file archive_id index [] = none
find_file archive_id index (f ∷ fs) = elim (find_file archive_id (suc index) fs) [
  | some found ↦ some found
  | none ↦ if f.archive_id == archive_id then some (index, f) else none
]

-- `++frequencies[term]` for each term.
unfoldable pub count_terms : List (Bytes × ℕ) → List Bytes → Result BuildError (List (Bytes × ℕ))
count_terms frequencies [] = ok frequencies
count_terms frequencies (term ∷ terms) =
    ensure (not (or_else 0 (find_index term frequencies) == uint32_max)) term_frequency_exceeded
      (count_terms (alter string_less term (λ old. or_else 0 old + 1) frequencies) terms)

-- `inverted[term][local_id] = frequency` for each term of the document.
unfoldable pub add_postings :
    ℕ → List (Bytes × ℕ) → List (Bytes × List (ℕ × ℕ)) → List (Bytes × List (ℕ × ℕ))
add_postings local_id [] inverted = inverted
add_postings local_id (e ∷ frequencies) inverted =
    add_postings local_id frequencies
      (alter string_less e.0 (λ old. alter ltb local_id (λ _. e.1) (or_else [] old)) inverted)

pub record Tables : Type 0 where
  pub documents : List SegmentDocumentRecord
  pub inverted : List (Bytes × List (ℕ × ℕ))

unfoldable pub segment_document : ℕ → ParsedArtifactDocument → ℕ → ℕ → ℤ → ℤ → SegmentDocumentRecord
segment_document batch_id parsed ordinal term_count occurred_at archived_at =
    let d = parsed.document in
    record {
      doc_id = batch_id * local_ids % 2 ^ 64 + parsed.local_id;
      local_id = parsed.local_id;
      file_ordinal = ordinal;
      archive_id = d.archive_id;
      byte_offset = d.byte_offset;
      byte_length = d.byte_length;
      occurred_at_ms = occurred_at;
      archived_at_ms = archived_at;
      term_count = term_count;
      line_id = d.line_id;
      station_id = d.station_id;
      device_id = d.device_id;
      collector_id = d.collector_id;
      work_order = d.work_order;
      product_sn = d.product_sn;
      source_type = d.source_type;
      level = d.level;
      module_name = d.module_name;
      error_code = d.error_code;
      event_name = d.event_name;
    }

unfoldable pub required : {A : Type 0} → BuildError → Option A → Result BuildError A
required error none = thrown error
required error (some a) = ok a

-- One term record for each entry of the index, whose postings start at `begin`, the postings of the
-- entries before it.
unfoldable pub term_records : ℕ → List (Bytes × List (ℕ × ℕ)) → List SegmentTermRecord
term_records begin [] = []
term_records begin (e ∷ inverted) =
    record {
      term = e.0;
      document_frequency = length e.1;
      posting_begin = begin;
      posting_count = length e.1;
    }
    ∷ term_records (begin + length e.1) inverted

unfoldable pub list_postings : List (ℕ × ℕ) → List SegmentPosting
list_postings [] = []
list_postings (e ∷ ids) = record { local_id = e.0; term_frequency = e.1 } ∷ list_postings ids

unfoldable pub all_postings : List (Bytes × List (ℕ × ℕ)) → List SegmentPosting
all_postings [] = []
all_postings (e ∷ inverted) = list_postings e.1 ++ all_postings inverted

unfoldable pub sizes_fit : List (Bytes × List (ℕ × ℕ)) → Bool
sizes_fit [] = true
sizes_fit (e ∷ inverted) = leb (length e.1) uint32_max && sizes_fit inverted

pub record BuiltSegment : Type 0 where
  pub files : List SegmentFileRecord
  pub documents : List SegmentDocumentRecord
  pub postings : List SegmentPosting
  pub terms : List SegmentTermRecord

module _ (p : BuildPlatform) where
  unfoldable pub all_unchanged : List SegmentFileRecord → Bool
  all_unchanged [] = true
  all_unchanged (f ∷ fs) = p.is_unchanged f && all_unchanged fs

  -- One round of the loop over the documents.
  unfoldable pub add_document :
      ℕ → List SegmentFileRecord → Tables → ParsedArtifactDocument → Result BuildError Tables
  add_document batch_id files s parsed =
      let d = parsed.document in
      required unknown_file (find_file d.archive_id 0 files) >>= λ found.
      required record_unreadable (p.read_record found.1 d.byte_offset d.byte_length) >>= λ raw.
      let terms = tokenize_terms raw in
      ensure (length terms == d.term_count && leb (length terms) uint32_max) term_count_changed (
        count_terms [] terms >>= λ frequencies.
        required time_invalid (p.read_time d.occurred_at) >>= λ occurred_at.
        required time_invalid (p.read_time d.archived_at) >>= λ archived_at. ok (record {
          documents =
              s.documents
              ++ segment_document batch_id parsed found.0 (length terms) occurred_at archived_at
                ∷ [];
          inverted = add_postings parsed.local_id frequencies s.inverted;
        }))

  unfoldable pub add_documents :
      ℕ → List SegmentFileRecord → Tables → List ParsedArtifactDocument → Result BuildError Tables
  add_documents batch_id files s [] = ok s
  add_documents batch_id files s (d ∷ ds) =
      add_document batch_id files s d >>= λ next. add_documents batch_id files next ds

  unfoldable pub build : ParsedBatch → Result BuildError BuiltSegment
  build batch =
      let files = map file_record batch.files in
      ensure
        (leb batch.batch_id uint32_max
          && not (is_empty batch.files)
          && not (is_empty batch.documents))
        not_representable
        (ensure (all_unchanged files) archive_changed (
          add_documents batch.batch_id files (record { documents = []; inverted = [] })
            batch.documents
          >>= λ s. ensure (sizes_fit s.inverted) document_frequency_exceeded (
              let terms = term_records 0 s.inverted in
              let postings = all_postings s.inverted in
              ensure (not (is_empty terms || is_empty postings)) no_searchable_terms (
                ok (record {
                  files = files;
                  documents = s.documents;
                  postings = postings;
                  terms = terms;
                })))))
