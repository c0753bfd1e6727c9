-- ===== src/Store/Load/Documents.antt =====
-- The documents of a loaded segment are found by their ids, and their bytes lie inside of their files.
use work_smt.Base.{
  refl, ap, ◌/◌, ◌∙◌, sym, Option, subst, inr, zero, inl, [], Option-cases, ◌%◌, suc, arith, ◌≤◌,
  ◌∷◌, ◌+◌, length, ◌*◌, true, some, ◌≡◌, ◌^◌, get_elem?, ◌<◌, List, ℕ,
}
use work_smt.Index.Snapshot.Built.{find_document_iff}
use work_smt.Index.Snapshot.Lookup.{Holds, Among}
use work_smt.Store.Documents.Loaded.{load_documents-AreValid, AreValid}
use work_smt.Store.Load.Tables.{load_segment-LoadedFrom}
use work_smt.Index.Snapshot.{find_document, make_snapshot, IndexSnapshot, local_ids}
use work_smt.Store.Load.Searchable.{IsLoaded}
use work_smt.Index.Segments.{LoadedSegment, SegmentDocumentRecord, SegmentFileRecord}
use work_smt.Store.Load.{StorePlatform}
use mathlib.Core.Option.{some-injective}
use work_smt.Store.Documents.{valid_in_file, valid_document}

AreValid-at :
    (batch_id : ℕ) (files : List SegmentFileRecord) (index i : ℕ) (ds : List SegmentDocumentRecord)
    (d : SegmentDocumentRecord)
    → AreValid batch_id files index ds
    → get_elem? ds i ≡ some d
    → valid_document batch_id files (index + i) d ≡ true
AreValid-at batch_id files index i [] d h e = cc
AreValid-at batch_id files index zero (x ∷ ds) d h e =
    let same = some-injective x d e in
    let n : index + 0 ≡ index = omega arith in
    rw n (subst (λ z. valid_document batch_id files index z ≡ true) same h.0)
AreValid-at batch_id files index (suc i) (x ∷ ds) d h e =
    let n : index + suc i ≡ suc index + i = omega arith in
    rw n (AreValid-at batch_id files (suc index) i ds d h.1 e)

get_elem?-lt :
    (i : ℕ) (ds : List SegmentDocumentRecord) (d : SegmentDocumentRecord)
    → get_elem? ds i ≡ some d
    → i < length ds
get_elem?-lt i [] d e = cc
get_elem?-lt zero (x ∷ ds) d e = omega arith
get_elem?-lt (suc i) (x ∷ ds) d e = omega (arith, get_elem?-lt i ds d e)

-- What a valid document has.
valid_document-file :
    (batch_id : ℕ) (files : List SegmentFileRecord) (i : ℕ) (d : SegmentDocumentRecord)
    → batch_id < 2 ^ 32
    → valid_document batch_id files i d ≡ true
    → (d.local_id ≡ i)
      × (d.doc_id ≡ batch_id * local_ids + i)
      × ((f : SegmentFileRecord) × (get_elem? files d.file_ordinal ≡ some f)
          × (1 ≤ d.byte_length)
          × (d.archive_id ≡ f.archive_id)
          × (d.byte_offset + d.byte_length ≤ f.file_size))
unfolding valid_document valid_in_file
valid_document-file batch_id files i d b h =
    let l : d.local_id ≡ i = ground arith in
    let id : d.doc_id ≡ batch_id * local_ids % 2 ^ 64 + d.local_id = ground arith in
    elim (Option-cases (get_elem? files d.file_ordinal)) [
      | inl e ↦ ground arith
      | inr (f, e) ↦ (l, omega arith, (f, e, ground arith, ground arith, ground arith))
    ]

-- When the snapshot was built by its constructor and one of its segments was loaded by the store and
-- has at most 2 ^ 32 documents, then `findDocument` finds each document of this segment by the id it
-- carries, with a file in which the document's bytes lie, at least one.
pub find_document-IsLoaded :
    (p : StorePlatform) (input : List (Option LoadedSegment)) (s : IndexSnapshot)
    (g : LoadedSegment) (i : ℕ) (d : SegmentDocumentRecord)
    → make_snapshot input ≡ some s
    → Among g s.segments
    → IsLoaded p g
    → length g.documents ≤ 2 ^ 32
    → get_elem? g.documents i ≡ some d
    → (f : SegmentFileRecord) × (find_document d.doc_id s ≡ some (d, f))
      × (1 ≤ d.byte_length)
      × (d.archive_id ≡ f.archive_id)
      × (d.byte_offset + d.byte_length ≤ f.file_size)
find_document-IsLoaded p input s g i d made among l few e =
    let (m, t, same, batch, low) =
      load_segment-LoadedFrom p l.name l.batch_id l.sha l.contents g l.loads in
    let (valid, count) =
      load_documents-AreValid l.contents.documents m.document_count m.batch_id g.files g.documents
        t.documents in
    let small : m.batch_id < 2 ^ 32 = subst (λ z. z < 2 ^ 32) (sym batch ∙ t.batch) low in
    let here : valid_document m.batch_id g.files (0 + i) d ≡ true =
      AreValid-at m.batch_id g.files 0 i g.documents d valid e in
    let (local, id, (f, file, long, archive, inside)) =
      valid_document-file m.batch_id g.files (0 + i) d small here in
    let n = get_elem?-lt i g.documents d e in
    let high : m.batch_id ≡ d.doc_id / local_ids = omega arith in
    let place : i ≡ d.doc_id % local_ids = omega arith in
    let holds : Holds g d.doc_id d f = record {
      batch = t.batch ∙ high;
      place = ap (get_elem? g.documents) (sym place) ∙ e;
      identity = refl;
      source = file;
    } in
    (f, (find_document_iff input s d.doc_id d f made).1 (g, among, holds), long, archive, inside)
