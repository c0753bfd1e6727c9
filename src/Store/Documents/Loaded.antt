-- ===== src/Store/Documents/Loaded.antt =====
-- What the checks of `loadDocuments` establish.
use work_smt.Base.{refl, zero, ap, subst, [], suc, true, length, ◌≡◌, ◌∷◌, List, ℕ}
use work_smt.Store.Codec.{record_invalid, read_header}
use work_smt.Store.Codec.Chains.{accept-eq-ok, load_all-eq-ok, give-eq-ok, >>>-eq-ok}
use work_smt.Base.Bytes.{codes, Bytes}
use work_smt.Store.Documents.{
  read_fields, valid_document, read_document, load_documents, read_documents,
}
use work_smt.Base.Results.{ok}
use work_smt.Index.Segments.{SegmentDocumentRecord, SegmentFileRecord}

abbrev pub AreValid : ℕ → List SegmentFileRecord → ℕ → List SegmentDocumentRecord → Type 0
AreValid batch_id files index [] = Unit
AreValid batch_id files index (d ∷ ds) =
    (valid_document batch_id files index d ≡ true) × AreValid batch_id files (suc index) ds

read_documents-AreValid :
    (batch_id : ℕ) (files : List SegmentFileRecord) (index count : ℕ)
    (ds : List SegmentDocumentRecord) (bytes rest : Bytes)
    → read_documents batch_id files index count bytes ≡ ok (ds, rest)
    → AreValid batch_id files index ds × (length ds ≡ count)
unfolding read_documents read_document
read_documents-AreValid batch_id files index zero ds bytes rest h =
    let e = (give-eq-ok [] bytes h).0 in rw (← e) (tt, refl)
read_documents-AreValid batch_id files index (suc count) ds bytes rest h =
    let (d, m, e, c) = >>>-eq-ok (read_document batch_id files index) _ h in
    let (es, m₂, e₂, c₂) = >>>-eq-ok (read_documents batch_id files (suc index) count) _ c in
    let (x, m₃, e₃, c₃) = >>>-eq-ok read_fields _ e in
    let (t, same, z) = accept-eq-ok _ record_invalid x m₃ c₃ in
    let (v, k) = read_documents-AreValid batch_id files (suc index) count es m m₂ e₂ in
    let (whole, y) = give-eq-ok (d ∷ es) m₂ c₂ in
    subst (λ z. AreValid batch_id files index z × (length z ≡ suc count)) whole
      ((subst (λ z. valid_document batch_id files index z ≡ true) same t, v), ap suc k)

-- The documents that `loadDocuments` has accepted are as many as expected, and each passes the checks
-- at its place.
pub load_documents-AreValid :
    (content : Bytes) (count batch_id : ℕ) (files : List SegmentFileRecord)
    (ds : List SegmentDocumentRecord)
    → load_documents content count batch_id files ≡ ok ds
    → AreValid batch_id files 0 ds × (length ds ≡ count)
unfolding load_documents
load_documents-AreValid content count batch_id files ds h =
    let (u, m, e, c) =
      >>>-eq-ok (read_header (codes "LTDOC001") count) _ (load_all-eq-ok _ content h) in
    read_documents-AreValid batch_id files 0 count ds m [] c
