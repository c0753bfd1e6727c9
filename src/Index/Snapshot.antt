-- ===== src/Index/Snapshot.antt =====
-- 02_SMT_LogTrace/src/indexing/index_snapshot.cpp: the READY snapshot and the lookup of a document.
-- A null `shared_ptr` is `none`; a result `none` is the exception or the `false` of the source.
pub mod Lookup
pub mod Built
use work_smt.Base.{
  ◌==◌, ◌/◌, ltb, false, ◌%◌, none, true, length, get_elem?, ◌+◌, leb, some, ◌∷◌, Option, ◌++◌, ℕ,
  [], List,
}
use work_smt.Index.Segments.{SegmentFileRecord, SegmentDocumentRecord, LoadedSegment}

pub record IndexSnapshot : Type 0 where
  pub segments : List LoadedSegment
  pub version : ℕ
  pub document_count : ℕ

unfoldable pub empty_snapshot : IndexSnapshot
empty_snapshot = record { segments = []; version = 0; document_count = 0 }

-- One round of the constructor's loop, behind its guard.
unfoldable pub add_segment : IndexSnapshot → LoadedSegment → IndexSnapshot
add_segment s g = record {
  segments = s.segments ++ g ∷ [];
  version = g.batch_id;
  document_count = s.document_count + length g.documents;
}

unfoldable pub add_segments : ℕ → IndexSnapshot → List (Option LoadedSegment) → Option IndexSnapshot
add_segments previous s [] = some s
add_segments previous s (none ∷ rest) = none
add_segments previous s (some g ∷ rest) = elim (leb g.batch_id previous) [
  | true ↦ none
  | false ↦ add_segments g.batch_id (add_segment s g) rest
]

unfoldable pub make_snapshot : List (Option LoadedSegment) → Option IndexSnapshot
make_snapshot = add_segments 0 empty_snapshot

-- `2 ^ 32`: a document id is a batch id and a local id of 32 bits.
abbrev pub local_ids : ℕ
local_ids = 4294967296

-- `candidate` of the segment whose batch id is that of the document id.
unfoldable pub candidate : ℕ → LoadedSegment → Option (SegmentDocumentRecord × SegmentFileRecord)
candidate doc_id g = elim (get_elem? g.documents (doc_id % local_ids)) [
  | none ↦ none
  | some d ↦ elim (d.doc_id == doc_id) [
    | false ↦ none
    | true ↦ elim (get_elem? g.files d.file_ordinal) [ none ↦ none | some f ↦ some (d, f) ]
  ]
]

unfoldable pub find_from :
    ℕ → List LoadedSegment → Option (SegmentDocumentRecord × SegmentFileRecord)
find_from doc_id [] = none
find_from doc_id (g ∷ rest) = elim (ltb g.batch_id (doc_id / local_ids)) [
  | true ↦ find_from doc_id rest
  | false ↦ elim (ltb (doc_id / local_ids) g.batch_id) [ true ↦ none | false ↦ candidate doc_id g ]
]

unfoldable pub find_document :
    ℕ → IndexSnapshot → Option (SegmentDocumentRecord × SegmentFileRecord)
find_document doc_id s = find_from doc_id s.segments
