-- ===== src/Search/Segment/Hits.antt =====
-- The loop over the candidates: the frequencies that it reads take no document away.
use work_smt.Base.{
  inl, inr, arith, if◌then◌else◌, length, get_elem?, Bool-cases, Option-cases, All, All-imp, Option,
  none, some, ◌+◌, ◌≤◌, ◌≡◌, [], ◌∷◌, ℕ, List,
}
use work_smt.Index.Segments.{LoadedSegment, SegmentDocumentRecord, SegmentTermRecord}
use work_smt.Search.Postings.Frequency.{frequencies_return}
use work_smt.Search.Query.{matches_filters, SearchQuery}
use work_smt.Search.Segment.{select}
use work_smt.Search.Segment.Selection.{IsPosted}

-- The documents of the ids that pass the filters, `none` where there is no document.
unfoldable pub chosen : LoadedSegment → SearchQuery → List ℕ → Option (List SegmentDocumentRecord)
chosen g query [] = some []
chosen g query (local ∷ locals) = elim (get_elem? g.documents local) [
  | none ↦ none
  | some document ↦ elim (chosen g query locals) [
    | none ↦ none
    | some rest ↦ some (if matches_filters document query then document ∷ rest else rest)
  ]
]

-- Where the ranges of the terms are inside of the table, the frequencies take nothing away.
pub select-chosen :
    (g : LoadedSegment) (query : SearchQuery) (ts : List SegmentTermRecord) (ids : List ℕ)
    (ds : List SegmentDocumentRecord)
    → All (IsPosted g) ts
    → chosen g query ids ≡ some ds
    → select g query ts ids ≡ some ds
unfolding select chosen
select-chosen g query ts [] ds h c = c
select-chosen g query ts (local ∷ locals) ds h c =
    let (ns, e) = frequencies_return g ts local (
      All-imp (IsPosted g) (λ t. t.posting_begin + t.posting_count ≤ length g.postings) ts
        (λ t k. k.in_table) h) in
    elim (Option-cases (get_elem? g.documents local)) [
      | inl out ↦ absurd (ground arith)
      | inr (d, at) ↦ elim (Option-cases (chosen g query locals)) [
        | inl out ↦ absurd (ground arith)
        | inr (rest, r) ↦
            let s = select-chosen g query ts locals rest h r in
            elim (Bool-cases (matches_filters d query)) [
              | inl m ↦ ground arith
              | inr m ↦ ground arith
            ]
      ]
    ]
