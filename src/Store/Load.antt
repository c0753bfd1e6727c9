-- ===== src/Store/Load.antt =====
-- 02_SMT_LogTrace/src/indexing/segment_store.cpp: loadAtPath, from the manifest that the JSON parser
-- has read to the loaded segment, and SegmentStore::load. The JSON parser, the file system, SHA-256,
-- times and doubles are the parameter `StorePlatform`.
pub mod Tables
pub mod Digest
pub mod Searchable
pub mod Documents
use work_smt.Store.Codec.{
  statistics_inconsistent, artifact_mismatch, manifest_invalid, StoreError, valid_sha256,
}
use work_smt.Store.Terms.{load_terms, TermTable}
use work_smt.Store.Postings.{load_postings}
use work_smt.Base.Results.{ok, ◌>>=◌, thrown, ensure, Result}
use work_smt.Base.Ints.{negsuc, less, pos, ℤ}
use work_smt.Store.Documents.{load_documents}
use work_smt.Base.{
  some, [], is_empty, ◌-◌, ◌||◌, if◌then◌else◌, ◌+◌, ◌^◌, ◌∷◌, leb, none, ltb, ◌*◌, length, ◌&&◌,
  Option, ◌==◌, not, ℕ, List, Bool,
}
use work_smt.Store.Files.{load_files}
use work_smt.Base.Bytes.{bytes_eq, Bytes}
use work_smt.Index.Segments.{
  SegmentPosting, LoadedSegment, SegmentDocumentRecord, SegmentFileRecord,
}

pub record ArtifactFact : Type 0 where
  pub size : ℕ
  pub sha256 : Bytes

-- The fields of manifest.json, once they have the expected keys and types.
pub record Manifest (Double : Type 0) : Type 0 where
  pub format_version : ℕ
  pub batch_id : ℕ
  pub first_archive_id : ℕ
  pub last_archive_id : ℕ
  pub segment_name : Bytes
  pub parsed_file_count : ℕ
  pub source_file_count : ℕ
  pub document_count : ℕ
  pub term_count : ℕ
  pub posting_count : ℕ
  pub average_document_length : Double
  pub min_occurred_at : Bytes
  pub max_occurred_at : Bytes
  pub created_at : Bytes
  pub documents_fact : ArtifactFact
  pub files_fact : ArtifactFact
  pub postings_fact : ArtifactFact
  pub terms_fact : ArtifactFact

-- The contents of a segment directory.
pub record SegmentFiles : Type 0 where
  pub manifest : Bytes
  pub documents : Bytes
  pub files : Bytes
  pub postings : Bytes
  pub terms : Bytes

pub record StorePlatform : Type 1 where
  pub Double : Type 0
  pub sha256_hex : Bytes → Bytes
  pub read_time : Bytes → Option ℤ
  -- The manifest that a text denotes; `none` for an error of the parser or other keys and types.
  pub read_manifest : Bytes → Option (Manifest Double)
  -- `std::isfinite(average) && average > 0.0`.
  pub is_positive : Double → Bool
  -- `std::fabs(total / count - average) > 1e-9`.
  pub differs_from_average : ℕ → ℕ → Double → Bool

unfoldable pub binary_limit : ℕ
binary_limit = 2 * 1024 * 1024 * 1024

unfoldable pub valid_fact : ArtifactFact → Bool
valid_fact fact = valid_sha256 fact.sha256 && leb fact.size binary_limit

-- `std::min` and `std::max` of the times of the documents.
unfoldable pub least_time : ℤ → List SegmentDocumentRecord → ℤ
least_time least [] = least
least_time least (d ∷ ds) =
    least_time (if less d.occurred_at_ms least then d.occurred_at_ms else least) ds

unfoldable pub greatest_time : ℤ → List SegmentDocumentRecord → ℤ
greatest_time greatest [] = greatest
greatest_time greatest (d ∷ ds) =
    greatest_time (if less greatest d.occurred_at_ms then d.occurred_at_ms else greatest) ds

unfoldable pub total_terms : List SegmentDocumentRecord → ℕ
total_terms [] = 0
total_terms (d ∷ ds) = d.term_count + total_terms ds

-- `==` of two times.
unfoldable pub same_time : ℤ → ℤ → Bool
same_time a b = not (less a b) && not (less b a)

module _ (p : StorePlatform) where
  -- The condition on the fields of the manifest, with the three times read.
  unfoldable pub valid_manifest : Bytes → ℕ → Manifest p.Double → ℤ → ℤ → Bool
  valid_manifest expected_name expected_batch_id m min_time max_time =
      m.format_version == 1
      && m.batch_id == expected_batch_id
      && ltb m.batch_id (2 ^ 32)
      && not (m.first_archive_id == 0)
      && leb m.first_archive_id m.last_archive_id
      && bytes_eq m.segment_name expected_name
      && leb m.parsed_file_count m.source_file_count
      && not (
          m.parsed_file_count == 0
          || m.document_count == 0
          || m.term_count == 0
          || m.posting_count == 0)
      && p.is_positive m.average_document_length
      && not (less max_time min_time)

  unfoldable pub valid_content : ArtifactFact → Bytes → Bool
  valid_content fact content =
      length content == fact.size && bytes_eq (p.sha256_hex content) fact.sha256

  unfoldable pub valid_contents : Manifest p.Double → SegmentFiles → Bool
  valid_contents m files =
      valid_content m.documents_fact files.documents
      && valid_content m.files_fact files.files
      && valid_content m.postings_fact files.postings
      && valid_content m.terms_fact files.terms

  unfoldable pub valid_statistics : Manifest p.Double → ℤ → ℤ → List SegmentDocumentRecord → Bool
  valid_statistics m min_time max_time ds =
      not (p.differs_from_average (total_terms ds) (length ds) m.average_document_length)
      && same_time (least_time (pos (2 ^ 63 - 1)) ds) min_time
      && same_time (greatest_time (negsuc (2 ^ 63 - 1)) ds) max_time

  -- The segment from the tables that have been loaded.
  unfoldable pub assemble :
      Manifest p.Double
      → Bytes
      → ℤ
      → ℤ
      → List SegmentFileRecord
      → List SegmentDocumentRecord
      → List SegmentPosting
      → TermTable
      → LoadedSegment
  assemble m manifest_sha min_time max_time files documents postings table = record {
    format_version = m.format_version;
    batch_id = m.batch_id;
    first_archive_id = m.first_archive_id;
    last_archive_id = m.last_archive_id;
    source_file_count = m.source_file_count;
    parsed_file_count = m.parsed_file_count;
    segment_name = m.segment_name;
    manifest_sha256 = manifest_sha;
    min_occurred_at_ms = min_time;
    max_occurred_at_ms = max_time;
    files = files;
    documents = documents;
    postings = postings;
    terms = table.terms;
    term_lookup = table.lookup;
  }

  -- The loading of the four tables, and the check of the statistics.
  unfoldable pub load_tables :
      Manifest p.Double → SegmentFiles → ℤ → ℤ → Result StoreError LoadedSegment
  load_tables m contents min_time max_time =
      load_files contents.files m.parsed_file_count >>= λ files.
      load_documents contents.documents m.document_count m.batch_id files >>= λ documents.
      load_postings contents.postings m.posting_count (length documents) >>= λ postings.
      load_terms contents.terms m.term_count postings >>= λ table.
      ensure (valid_statistics m min_time max_time documents) statistics_inconsistent (
        ok (
          assemble m (p.sha256_hex contents.manifest) min_time max_time files documents postings
            table))

  unfoldable pub valid_facts : Manifest p.Double → Bool
  valid_facts m =
      valid_fact m.documents_fact
      && valid_fact m.files_fact
      && valid_fact m.postings_fact
      && valid_fact m.terms_fact

  unfoldable pub times_of : Manifest p.Double → Result StoreError (ℤ × ℤ)
  times_of m = elim (p.read_time m.min_occurred_at) [
    | none ↦ thrown manifest_invalid
    | some min_time ↦ elim (p.read_time m.max_occurred_at) [
      | none ↦ thrown manifest_invalid
      | some max_time ↦ elim (p.read_time m.created_at) [
        | none ↦ thrown manifest_invalid
        | some created_at ↦ ok (min_time, max_time)
      ]
    ]
  ]

  unfoldable pub manifest_of : Bytes → Result StoreError (Manifest p.Double)
  manifest_of text = elim (p.read_manifest text) [ none ↦ thrown manifest_invalid | some m ↦ ok m ]

  -- An empty expected digest of the manifest asks for no check.
  unfoldable pub load_segment : Bytes → ℕ → Bytes → SegmentFiles → Result StoreError LoadedSegment
  load_segment expected_name expected_batch_id expected_manifest_sha contents =
      ensure
        (is_empty expected_manifest_sha
          || bytes_eq (p.sha256_hex contents.manifest) expected_manifest_sha)
        manifest_invalid
        (manifest_of contents.manifest >>= λ m. times_of m >>= λ times.
          ensure (valid_manifest expected_name expected_batch_id m times.0 times.1) manifest_invalid
            (ensure (valid_facts m) manifest_invalid (
              ensure (valid_contents m contents) artifact_mismatch
                (load_tables m contents times.0 times.1))))
