-- ===== src/Store/Build/Records.antt =====
-- The document records that SegmentStore::build of 02_SMT_LogTrace/src/indexing/segment_store.cpp
-- writes, one for each parsed document.
use work_smt.Base.{
  refl, subst, ap, map, is_empty, leb, not, ◌∙◌, ◌&&◌, ◌||◌, sym, ==_iff, &&_true, ◌++◌, append-nil,
  append_assoc, length, some, ◌≡◌, ◌==◌, [], ◌∷◌, ℕ, List,
}
use work_smt.Base.Results.{ensure-eq-ok, >>=-eq-ok, ok-injective, ok}
use work_smt.Base.Ints.{ℤ}
use work_smt.Index.Segments.{SegmentDocumentRecord, SegmentFileRecord}
use work_smt.Parsing.Tokenizer.{tokenize_terms}
use work_smt.Store.Build.{
  no_searchable_terms, document_frequency_exceeded, sizes_fit, archive_changed, all_unchanged,
  not_representable, time_invalid, term_count_changed, file_record, BuiltSegment, record_unreadable,
  unknown_file, ParsedBatch, build, required, uint32_max, find_file, Tables, ParsedArtifactDocument,
  add_documents, all_postings, add_document, term_records, BuildPlatform, count_terms,
  segment_document,
}
use work_smt.Store.Build.Index.{required-eq-ok, words_of, words_of-found}

module _ (p : BuildPlatform) (batch_id : ℕ) (files : List SegmentFileRecord) where
  -- The record has the fields of the parsed document, the place of its file, as many terms as its
  -- bytes in the archive, and the times that its texts denote.
  pub record IsRecordOf (parsed : ParsedArtifactDocument) (d : SegmentDocumentRecord) : Type 0 where
    pub file : ℕ × SegmentFileRecord
    pub occurred_at : ℤ
    pub archived_at : ℤ
    pub in_file : find_file parsed.document.archive_id 0 files ≡ some file
    pub occurred : p.read_time parsed.document.occurred_at ≡ some occurred_at
    pub archived : p.read_time parsed.document.archived_at ≡ some archived_at
    pub counted : length (words_of p files parsed) ≡ parsed.document.term_count
    pub fields :
        d
        ≡ segment_document batch_id parsed file.0
            (length (words_of p files parsed))
            occurred_at
            archived_at

  -- The records are those of the parsed documents, in their order.
  abbrev pub AreRecordsOf : List ParsedArtifactDocument → List SegmentDocumentRecord → Type 0
  AreRecordsOf [] [] = Unit
  AreRecordsOf [] (d ∷ ds) = ⊥
  AreRecordsOf (x ∷ xs) [] = ⊥
  AreRecordsOf (x ∷ xs) (d ∷ ds) = IsRecordOf x d × AreRecordsOf xs ds

  add_document-IsRecordOf :
      (s r : Tables) (x : ParsedArtifactDocument)
      → add_document p batch_id files s x ≡ ok r
      → (d : SegmentDocumentRecord) × IsRecordOf x d × (r.documents ≡ s.documents ++ d ∷ [])
  unfolding add_document
  add_document-IsRecordOf s r x h =
      let (found, e, h₁) =
        >>=-eq-ok (required unknown_file (find_file x.document.archive_id 0 files)) _ h in
      let (raw, e₂, h₂) =
        >>=-eq-ok
          (required record_unreadable
            (p.read_record found.1 x.document.byte_offset x.document.byte_length))
          _ h₁ in
      let file = required-eq-ok _ unknown_file found e in
      let bytes = required-eq-ok _ record_unreadable raw e₂ in
      let terms = words_of-found p files x found raw file bytes in
      let (guard, h₃) =
        ensure-eq-ok
          (length (tokenize_terms raw) == x.document.term_count
            && leb (length (tokenize_terms raw)) uint32_max)
          term_count_changed _ h₂ in
      let (frequencies, e₃, h₄) = >>=-eq-ok (count_terms [] (tokenize_terms raw)) _ h₃ in
      let (occurred, e₄, h₅) =
        >>=-eq-ok (required time_invalid (p.read_time x.document.occurred_at)) _ h₄ in
      let (archived, e₅, h₆) =
        >>=-eq-ok (required time_invalid (p.read_time x.document.archived_at)) _ h₅ in
      let d = segment_document batch_id x found.0 (length (tokenize_terms raw)) occurred archived in
      (
        d,
        record {
          file = found;
          occurred_at = occurred;
          archived_at = archived;
          in_file = file;
          occurred = required-eq-ok _ time_invalid occurred e₄;
          archived = required-eq-ok _ time_invalid archived e₅;
          counted = ap length terms ∙ (==_iff _ _).0 (&&_true _ _ guard).0;
          fields = rw terms refl;
        },
        sym (ap (λ t. t.documents) (ok-injective h₆)),
      )

  -- The records that the loop adds are those of the documents that it takes.
  add_documents-AreRecordsOf :
      (s r : Tables) (xs : List ParsedArtifactDocument)
      → add_documents p batch_id files s xs ≡ ok r
      → (ds : List SegmentDocumentRecord) × AreRecordsOf xs ds × (r.documents ≡ s.documents ++ ds)
  unfolding add_documents
  add_documents-AreRecordsOf s r [] h =
      ([], tt, ap (λ t. t.documents) (sym (ok-injective h)) ∙ sym (append-nil s.documents))
  add_documents-AreRecordsOf s r (x ∷ xs) h =
      let (next, e, k) = >>=-eq-ok (add_document p batch_id files s x) _ h in
      let (d, one, first) = add_document-IsRecordOf s next x e in
      let (ds, others, rest) = add_documents-AreRecordsOf next r xs k in
      (d ∷ ds, (one, others), rest ∙ ap (λ z. z ++ ds) first ∙ append_assoc s.documents (d ∷ []) ds)

-- A built segment has one record for each document of the batch.
pub build-AreRecordsOf :
    (p : BuildPlatform) (batch : ParsedBatch) (g : BuiltSegment)
    → build p batch ≡ ok g
    → AreRecordsOf p batch.batch_id (map file_record batch.files) batch.documents g.documents
unfolding build
build-AreRecordsOf p batch g h =
    let files = map file_record batch.files in
    let (a, h₁) =
      ensure-eq-ok
        (leb batch.batch_id uint32_max
          && not (is_empty batch.files)
          && not (is_empty batch.documents))
        not_representable _ h in
    let (b, h₂) = ensure-eq-ok (all_unchanged p files) archive_changed _ h₁ in
    let empty : Tables = record { documents = []; inverted = [] } in
    let (s, e, h₃) = >>=-eq-ok (add_documents p batch.batch_id files empty batch.documents) _ h₂ in
    let (c, h₄) = ensure-eq-ok (sizes_fit s.inverted) document_frequency_exceeded _ h₃ in
    let (d, h₅) =
      ensure-eq-ok
        (not (is_empty (term_records 0 s.inverted) || is_empty (all_postings s.inverted)))
        no_searchable_terms _ h₄ in
    let (ds, records, whole) =
      add_documents-AreRecordsOf p batch.batch_id files empty s batch.documents e in
    let built = ap (λ z. z.documents) (ok-injective h₅) in
    subst (AreRecordsOf p batch.batch_id files batch.documents) (sym whole ∙ built) records
