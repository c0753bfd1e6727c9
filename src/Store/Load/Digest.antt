-- ===== src/Store/Load/Digest.antt =====
-- A segment that was loaded without an expected digest is loaded again under the digest of its manifest.
use work_smt.Base.{subst, sym, ◌∙◌, ap, length, arith, true, [], ◌≡◌, ◌||◌, ℕ, is_empty}
use work_smt.Base.Bytes.{bytes_eq_sound, bytes_eq_refl, bytes_eq, Bytes}
use work_smt.Store.Codec.{artifact_mismatch, statistics_inconsistent, manifest_invalid}
use work_smt.Base.Results.{ok-injective, ensure-eq-ok, >>=-eq-ok, ok}
use work_smt.Store.Load.{
  valid_contents, valid_facts, times_of, manifest_of, SegmentFiles, Manifest, assemble,
  valid_manifest, StorePlatform, load_tables, load_segment,
}
use work_smt.Store.Terms.{load_terms}
use work_smt.Store.Postings.{load_postings}
use work_smt.Store.Documents.{load_documents}
use work_smt.Store.Files.{load_files}
use work_smt.Index.Segments.{LoadedSegment}
use work_smt.Base.Ints.{ℤ}

abbrev pub HasDigest : StorePlatform → Bytes → ℕ → SegmentFiles → LoadedSegment → Type 0
HasDigest p name id contents g =
    (g.segment_name ≡ name) × (load_segment p name id g.manifest_sha256 contents ≡ ok g)

load_tables-names :
    (p : StorePlatform) (m : Manifest p.Double) (contents : SegmentFiles) (a b : ℤ)
    (g : LoadedSegment)
    → load_tables p m contents a b ≡ ok g
    → (g.segment_name ≡ m.segment_name) × (g.manifest_sha256 ≡ p.sha256_hex contents.manifest)
unfolding load_tables assemble
load_tables-names p m contents a b g h =
    let (files, e₁, h₁) = >>=-eq-ok (load_files contents.files m.parsed_file_count) _ h in
    let (documents, e₂, h₂) =
      >>=-eq-ok (load_documents contents.documents m.document_count m.batch_id files) _ h₁ in
    let (postings, e₃, h₃) =
      >>=-eq-ok (load_postings contents.postings m.posting_count (length documents)) _ h₂ in
    let (table, e₄, h₄) = >>=-eq-ok (load_terms contents.terms m.term_count postings) _ h₃ in
    let (t, k) = ensure-eq-ok _ statistics_inconsistent _ h₄ in
    let whole = ok-injective k in
    (ap (λ z. z.segment_name) (sym whole), ap (λ z. z.manifest_sha256) (sym whole))

-- The check of the digest on the digest itself.
passes : (s : Bytes) → (is_empty s || bytes_eq s s) ≡ true
passes s = let e = bytes_eq_refl s in ground arith

pub load_segment-HasDigest :
    (p : StorePlatform) (name : Bytes) (id : ℕ) (contents : SegmentFiles) (g : LoadedSegment)
    → load_segment p name id [] contents ≡ ok g
    → HasDigest p name id contents g
unfolding load_segment valid_manifest
load_segment-HasDigest p name id contents g h =
    let (m, e₁, h₁) = >>=-eq-ok (manifest_of p contents.manifest) _ h in
    let (times, e₂, h₂) = >>=-eq-ok (times_of p m) _ h₁ in
    let (valid, h₃) =
      ensure-eq-ok (valid_manifest p name id m times.0 times.1) manifest_invalid _ h₂ in
    let (facts, h₄) = ensure-eq-ok (valid_facts p m) manifest_invalid _ h₃ in
    let (same, h₅) = ensure-eq-ok (valid_contents p m contents) artifact_mismatch _ h₄ in
    let (a, b) = load_tables-names p m contents times.0 times.1 g h₅ in
    let c : bytes_eq m.segment_name name ≡ true = ground arith in
    let t = passes (p.sha256_hex contents.manifest) in
    (
      a ∙ bytes_eq_sound m.segment_name name c,
      subst (λ s. load_segment p name id s contents ≡ ok g) (sym b) (rw (load_segment, t) h),
    )
