-- ===== src/Index/Snapshot/Built.antt =====
-- What the constructor accepts, and lookups in a snapshot that it has built.
use work_smt.Base.{
  none, refl, append_assoc, ◌∙◌, inr, inl, leb, Bool-cases, arith, sym, ap, append-nil, ◌++◌, ◌+◌,
  ◌↔◌, [], length, map, some, ◌∷◌, ◌≡◌, Option, ℕ, List,
}
use mathlib.Core.Option.{some-injective}
use work_smt.Index.Snapshot.Lookup.{find_from-finds, find_from-Holds, Holds, Among, Increasing}
use work_smt.Index.Segments.{SegmentFileRecord, SegmentDocumentRecord, LoadedSegment}
use work_smt.Index.Snapshot.{
  add_segment, empty_snapshot, IndexSnapshot, add_segments, find_document, make_snapshot,
}

abbrev pub last_batch : ℕ → List LoadedSegment → ℕ
last_batch version [] = version
last_batch version (g ∷ gs) = last_batch g.batch_id gs

abbrev pub documents_total : List LoadedSegment → ℕ
documents_total [] = 0
documents_total (g ∷ gs) = length g.documents + documents_total gs

-- The segments `gs`, all present and in increasing order, were added to `s`, which gave `r`.
record Added (previous : ℕ) (s : IndexSnapshot) (input : List (Option LoadedSegment))
    (r : IndexSnapshot) (gs : List LoadedSegment) : Type 0 where
  present : input ≡ map some gs
  order : Increasing previous gs
  segments : r.segments ≡ s.segments ++ gs
  version : r.version ≡ last_batch s.version gs
  total : r.document_count ≡ s.document_count + documents_total gs

add_segments-Added :
    (previous : ℕ) (s : IndexSnapshot) (input : List (Option LoadedSegment)) (r : IndexSnapshot)
    → add_segments previous s input ≡ some r
    → (gs : List LoadedSegment) × Added previous s input r gs
unfolding add_segments add_segment
add_segments-Added previous s [] r h =
    let e = some-injective s r h in
    (
      [],
      record {
        present = refl;
        order = tt;
        segments = rw (e, append-nil);
        version = ap (λ x. x.version) (sym e);
        total = rw e (omega arith);
      },
    )
add_segments-Added previous s (none ∷ rest) r h = cc
add_segments-Added previous s (some g ∷ rest) r h = elim (Bool-cases (leb g.batch_id previous)) [
  | inl e ↦ ground arith
  | inr e ↦
      let (gs, a) = add_segments-Added g.batch_id (add_segment s g) rest r (ground arith) in
      (
        g ∷ gs,
        record {
          present = ap (◌∷◌ (some g)) a.present;
          order = (ground arith, a.order);
          segments = a.segments ∙ append_assoc s.segments (g ∷ []) gs;
          version = a.version;
          total = a.total ∙ omega arith;
        },
      )
]

-- A snapshot that the constructor has built holds exactly the given segments, none of them null,
-- with increasing batch ids above 0; its version is the last batch id, and its document count is
-- the number of documents in all the segments.
pub make_snapshot_lem :
    (input : List (Option LoadedSegment)) (s : IndexSnapshot)
    → make_snapshot input ≡ some s
    → (input ≡ map some s.segments)
      × Increasing 0 s.segments
      × (s.version ≡ last_batch 0 s.segments)
      × (s.document_count ≡ documents_total s.segments)
unfolding make_snapshot empty_snapshot
make_snapshot_lem input s h =
    let (gs, a) = add_segments-Added 0 empty_snapshot input s h in
    let e : s.segments ≡ gs = a.segments in
    let total : s.document_count ≡ documents_total gs = omega (arith, a.total) in
    (rw e a.present, rw e a.order, rw e a.version, rw e total)

-- In a snapshot that the constructor has built, `findDocument` returns a document and a file for an
-- id exactly when some segment of the snapshot has the batch id of the id's upper 32 bits, the
-- document at the place of its lower 32 bits, that document carries the id, and the file is the
-- segment's file at the document's ordinal. The early exits of the scan lose nothing.
pub find_document_iff :
    (input : List (Option LoadedSegment)) (s : IndexSnapshot) (doc_id : ℕ)
    (d : SegmentDocumentRecord) (f : SegmentFileRecord)
    → make_snapshot input ≡ some s
    → (find_document doc_id s ≡ some (d, f))
      ↔ ((g : LoadedSegment) × Among g s.segments × Holds g doc_id d f)
unfolding find_document
find_document_iff input s doc_id d f h =
    let i = (make_snapshot_lem input s h).1 in
    (
      find_from-Holds doc_id s.segments d f,
      λ t. let (g, k, w) = t in find_from-finds 0 doc_id g s.segments d f i k w,
    )
