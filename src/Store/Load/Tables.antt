-- ===== src/Store/Load/Tables.antt =====
-- The tables from which a loaded segment was assembled.
use work_smt.Store.Load.{
  valid_facts, times_of, manifest_of, valid_contents, SegmentFiles, valid_manifest, Manifest,
  assemble, load_tables, StorePlatform, load_segment,
}
use work_smt.Base.Bytes.{bytes_eq, Bytes}
use work_smt.Base.{◌||◌, is_empty, ◌∙◌, arith, refl, subst, ◌^◌, length, ◌<◌, true, ◌≡◌, ℕ}
use work_smt.Store.Codec.{artifact_mismatch, manifest_invalid, statistics_inconsistent}
use work_smt.Base.Results.{ok-injective, ensure-eq-ok, >>=-eq-ok, ok}
use work_smt.Store.Terms.{TermTable, load_terms}
use work_smt.Store.Postings.{load_postings}
use work_smt.Store.Documents.{load_documents}
use work_smt.Store.Files.{load_files}
use work_smt.Base.Ints.{ℤ}
use work_smt.Index.Segments.{LoadedSegment}

pub record LoadedFrom (p : StorePlatform) (m : Manifest p.Double) (contents : SegmentFiles)
    (g : LoadedSegment) : Type 0 where
  pub files : load_files contents.files m.parsed_file_count ≡ ok g.files
  pub documents :
      load_documents contents.documents m.document_count m.batch_id g.files ≡ ok g.documents
  pub postings :
      load_postings contents.postings m.posting_count (length g.documents) ≡ ok g.postings
  pub table : TermTable
  pub loads_table : load_terms contents.terms m.term_count g.postings ≡ ok table
  pub terms : g.terms ≡ table.terms
  pub lookup : g.term_lookup ≡ table.lookup
  pub batch : g.batch_id ≡ m.batch_id

load_tables-LoadedFrom :
    (p : StorePlatform) (m : Manifest p.Double) (contents : SegmentFiles) (a b : ℤ)
    (g : LoadedSegment)
    → load_tables p m contents a b ≡ ok g
    → LoadedFrom p m contents g
unfolding load_tables assemble
load_tables-LoadedFrom p m contents a b g h =
    let (files, e₁, h₁) = >>=-eq-ok (load_files contents.files m.parsed_file_count) _ h in
    let (documents, e₂, h₂) =
      >>=-eq-ok (load_documents contents.documents m.document_count m.batch_id files) _ h₁ in
    let (postings, e₃, h₃) =
      >>=-eq-ok (load_postings contents.postings m.posting_count (length documents)) _ h₂ in
    let (table, e₄, h₄) = >>=-eq-ok (load_terms contents.terms m.term_count postings) _ h₃ in
    let (t, k) = ensure-eq-ok _ statistics_inconsistent _ h₄ in
    subst (LoadedFrom p m contents) (ok-injective k) (record {
      files = e₁;
      documents = e₂;
      postings = e₃;
      table = table;
      loads_table = e₄;
      terms = refl;
      lookup = refl;
      batch = refl;
    })

-- A segment that `loadAtPath` returns comes from the tables of its directory under a manifest that
-- names the expected batch, and the contents are those that the manifest describes.
pub load_segment-LoadedFrom :
    (p : StorePlatform) (name : Bytes) (batch_id : ℕ) (sha : Bytes) (contents : SegmentFiles)
    (g : LoadedSegment)
    → load_segment p name batch_id sha contents ≡ ok g
    → (m : Manifest p.Double) × LoadedFrom p m contents g
      × (valid_contents p m contents ≡ true)
      × (g.batch_id ≡ batch_id)
      × (batch_id < 2 ^ 32)
unfolding load_segment valid_manifest
load_segment-LoadedFrom p name batch_id sha contents g h =
    let (z, h₀) =
      ensure-eq-ok (is_empty sha || bytes_eq (p.sha256_hex contents.manifest) sha) manifest_invalid
        _ h in
    let (m, e₁, h₁) = >>=-eq-ok (manifest_of p contents.manifest) _ h₀ in
    let (times, e₂, h₂) = >>=-eq-ok (times_of p m) _ h₁ in
    let (valid, h₃) =
      ensure-eq-ok (valid_manifest p name batch_id m times.0 times.1) manifest_invalid _ h₂ in
    let (facts, h₄) = ensure-eq-ok (valid_facts p m) manifest_invalid _ h₃ in
    let (same, h₅) = ensure-eq-ok (valid_contents p m contents) artifact_mismatch _ h₄ in
    let l = load_tables-LoadedFrom p m contents times.0 times.1 g h₅ in
    let b : m.batch_id ≡ batch_id = ground arith in
    let low : m.batch_id < 2 ^ 32 = ground arith in
    (m, l, same, l.batch ∙ b, subst (λ z. z < 2 ^ 32) b low)
