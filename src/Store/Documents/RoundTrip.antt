-- ===== src/Store/Documents/RoundTrip.antt =====
-- Documents are loaded as they were written.
use work_smt.Store.Codec.Reads.{
  Reads-next, Reads-last, Reads-int64, Reads-uint32, Reads-header, Reads-accept, Reads-uint64,
  Reads-bind, load_all-Reads, append_records-eq-ok, Reads-end, Reads,
}
use work_smt.Base.{refl, subst, [], suc, true, ◌≡◌, length, ◌∷◌, ◌^◌, List, ◌<◌, ℕ}
use work_smt.Base.Bytes.{codes, Bytes}
use work_smt.Store.Codec.{record_invalid, append_string, append_records}
use work_smt.Base.Results.{ok-injective, >>=-eq-ok, ok}
use work_smt.Store.Documents.{
  valid_document, read_fields, document_strings, serialize_documents, document_words, read_document,
  load_documents, document_bytes, read_documents,
}
use work_smt.Store.Codec.Words.{IsInt64}
use work_smt.Index.Segments.{SegmentFileRecord, SegmentDocumentRecord}

-- The words of the record have the widths of its fields.
pub record HasWidths (d : SegmentDocumentRecord) : Type 0 where
  pub doc_id : d.doc_id < 2 ^ 64
  pub local_id : d.local_id < 2 ^ 32
  pub file_ordinal : d.file_ordinal < 2 ^ 32
  pub archive_id : d.archive_id < 2 ^ 64
  pub byte_offset : d.byte_offset < 2 ^ 64
  pub byte_length : d.byte_length < 2 ^ 64
  pub occurred_at_ms : IsInt64 d.occurred_at_ms
  pub archived_at_ms : IsInt64 d.archived_at_ms
  pub term_count : d.term_count < 2 ^ 32

-- The records from place `index` on have words of their widths and pass the checks of the loader.
abbrev pub AreWritableDocuments :
    ℕ → List SegmentFileRecord → ℕ → List SegmentDocumentRecord → Type 0
AreWritableDocuments batch_id files index [] = Unit
AreWritableDocuments batch_id files index (d ∷ ds) =
    (HasWidths d × (valid_document batch_id files index d ≡ true))
    × AreWritableDocuments batch_id files (suc index) ds

Reads-fields :
    (d : SegmentDocumentRecord) (bytes : Bytes)
    → document_bytes d ≡ ok bytes
    → HasWidths d
    → Reads read_fields bytes d
unfolding document_bytes document_words document_strings read_fields
Reads-fields d bytes h w =
    let (s, e, k) = >>=-eq-ok (append_records append_string _) _ h in
    subst (λ z. Reads read_fields z d) (ok-injective k)
      (Reads-bind _ (Reads-uint64 d.doc_id w.doc_id) (
        Reads-bind _ (Reads-uint32 d.local_id w.local_id) (
          Reads-bind _ (Reads-uint32 d.file_ordinal w.file_ordinal) (
            Reads-bind _ (Reads-uint64 d.archive_id w.archive_id) (
              Reads-bind _ (Reads-uint64 d.byte_offset w.byte_offset) (
                Reads-bind _ (Reads-uint64 d.byte_length w.byte_length) (
                  Reads-bind _ (Reads-int64 d.occurred_at_ms w.occurred_at_ms) (
                    Reads-bind _ (Reads-int64 d.archived_at_ms w.archived_at_ms) (
                      Reads-bind _ (Reads-uint32 d.term_count w.term_count) (
                        Reads-next _ _ _ e λ s₁ e₁.
                          (Reads-next _ _ _ e₁ λ s₂ e₂.
                            (Reads-next _ _ _ e₂ λ s₃ e₃.
                              (Reads-next _ _ _ e₃ λ s₄ e₄.
                                (Reads-next _ _ _ e₄ λ s₅ e₅.
                                  (Reads-next _ _ _ e₅ λ s₆ e₆.
                                    (Reads-next _ _ _ e₆ λ s₇ e₇.
                                      (Reads-next _ _ _ e₇ λ s₈ e₈.
                                        (Reads-next _ _ _ e₈ λ s₉ e₉.
                                          (Reads-next _ _ _ e₉ λ t₁ f₁.
                                            (Reads-next _ _ _ f₁
                                              λ t₂ f₂. Reads-end _ f₂))))))))))))))))))))

Reads-documents :
    (batch_id : ℕ) (files : List SegmentFileRecord) (index : ℕ) (ds : List SegmentDocumentRecord)
    (bytes : Bytes)
    → append_records document_bytes ds ≡ ok bytes
    → AreWritableDocuments batch_id files index ds
    → Reads (read_documents batch_id files index (length ds)) bytes ds
unfolding read_documents read_document
Reads-documents batch_id files index [] bytes h w = Reads-end _ h
Reads-documents batch_id files index (d ∷ ds) bytes h ((u, v), w) =
    let (x, y, e, e₂, k) = append_records-eq-ok document_bytes d ds h in
    subst (λ z. Reads (read_documents batch_id files index (suc (length ds))) z (d ∷ ds)) k
      (Reads-bind _
        (Reads-accept (valid_document batch_id files index) record_invalid (λ x. x)
          (Reads-fields d x e u) v)
        (Reads-last (λ es. d ∷ es) (Reads-documents batch_id files (suc index) ds y e₂ w)))

-- When the documents of a segment can be written, have words of their widths and pass the checks of
-- the loader against the batch and the files, then the loader returns them from what was written.
pub load_documents-serialize_documents :
    (batch_id : ℕ) (files : List SegmentFileRecord) (ds : List SegmentDocumentRecord)
    (content : Bytes)
    → length ds < 2 ^ 64
    → AreWritableDocuments batch_id files 0 ds
    → serialize_documents ds ≡ ok content
    → load_documents content (length ds) batch_id files ≡ ok ds
unfolding load_documents serialize_documents
load_documents-serialize_documents batch_id files ds content l w h =
    let (records, e, k) = >>=-eq-ok (append_records document_bytes ds) _ h in
    subst (λ z. load_documents z (length ds) batch_id files ≡ ok ds) (ok-injective k)
      (load_all-Reads (
        Reads-bind _ (Reads-header (codes "LTDOC001") (length ds) refl l)
          (Reads-documents batch_id files 0 ds records e w)))
