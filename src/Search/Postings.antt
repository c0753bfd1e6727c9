-- ===== src/Search/Postings.antt =====
-- 02_SMT_LogTrace/src/search/search_engine.cpp: posting lists of one segment, their intersection and
-- the frequency of a term in a document. `none` is a read outside of the posting table.
pub mod Intersection
pub mod Frequency
use work_smt.Base.{
  ◌==◌, ◌/◌, if◌then◌else◌, get_elem?, ◌-◌, some, ◌+◌, true, false, zero, none, ltb, is_empty, suc,
  length, Option, ◌∷◌, [], ℕ, List,
}
use work_smt.Index.Segments.{SegmentPosting, LoadedSegment, SegmentTermRecord}

-- `postings[place + index].local_id` for `index` below the count, one read after the other.
unfoldable pub read_local_ids : List SegmentPosting → ℕ → ℕ → Option (List ℕ)
read_local_ids ps place zero = some []
read_local_ids ps place (suc n) = elim (get_elem? ps place) [
  | none ↦ none
  | some posting ↦ elim (read_local_ids ps (suc place) n) [
    | none ↦ none
    | some ids ↦ some (posting.local_id ∷ ids)
  ]
]

-- The local ids of a term's postings.
unfoldable pub posting_ids : LoadedSegment → SegmentTermRecord → Option (List ℕ)
posting_ids g t = read_local_ids g.postings t.posting_begin t.posting_count

-- `std::set_intersection` of two sorted ranges: the merge for one value of the first range, where
-- `rest` merges the values after it.
unfoldable pub merge : ℕ → (List ℕ → List ℕ) → List ℕ → List ℕ
merge x rest [] = []
merge x rest (y ∷ ys) = elim (ltb x y) [
  | true ↦ rest (y ∷ ys)
  | false ↦ elim (ltb y x) [ true ↦ merge x rest ys | false ↦ x ∷ rest ys ]
]

unfoldable pub set_intersection : List ℕ → List ℕ → List ℕ
set_intersection [] ys = []
set_intersection (x ∷ xs) ys = merge x (set_intersection xs) ys

-- The loop over the terms after the first; it stops when no candidate is left.
unfoldable pub narrow : LoadedSegment → List ℕ → List SegmentTermRecord → Option (List ℕ)
narrow g candidates [] = some candidates
narrow g candidates (t ∷ ts) = elim (posting_ids g t) [
  | none ↦ none
  | some ids ↦
      let both = set_intersection candidates ids in
      elim (is_empty both) [ true ↦ some both | false ↦ narrow g both ts ]
]

unfoldable pub insert_term : SegmentTermRecord → List SegmentTermRecord → List SegmentTermRecord
insert_term t [] = t ∷ []
insert_term t (u ∷ us) = elim (ltb u.document_frequency t.document_frequency) [
  | true ↦ u ∷ insert_term t us
  | false ↦ t ∷ u ∷ us
]

-- `std::sort` by document frequency, with one of the orders it may give to equal frequencies.
unfoldable pub sort_terms : List SegmentTermRecord → List SegmentTermRecord
sort_terms [] = []
sort_terms (t ∷ ts) = insert_term t (sort_terms ts)

unfoldable pub local_range : ℕ → ℕ → List ℕ
local_range index zero = []
local_range index (suc n) = index ∷ local_range (suc index) n

unfoldable pub candidates : LoadedSegment → List SegmentTermRecord → Option (List ℕ)
candidates g [] = some (local_range 0 (length g.documents))
candidates g (t ∷ ts) = elim (posting_ids g t) [ none ↦ none | some ids ↦ narrow g ids ts ]

-- The loop of `termFrequency`; fuel above `right - left` is enough.
unfoldable pub lower_bound : ℕ → List SegmentPosting → ℕ → ℕ → ℕ → Option ℕ
lower_bound zero ps left right local_id = none
lower_bound (suc fuel) ps left right local_id = elim (ltb left right) [
  | false ↦ some left
  | true ↦
      let middle = left + (right - left) / 2 in
      elim (get_elem? ps middle) [
        | none ↦ none
        | some posting ↦ elim (ltb posting.local_id local_id) [
          | true ↦ lower_bound fuel ps (suc middle) right local_id
          | false ↦ lower_bound fuel ps left middle local_id
        ]
      ]
]

unfoldable pub term_frequency : LoadedSegment → SegmentTermRecord → ℕ → Option ℕ
term_frequency g t local_id =
    elim (lower_bound (suc t.posting_count) g.postings t.posting_begin
      (t.posting_begin + t.posting_count) local_id) [
        | none ↦ none
        | some left ↦ elim (get_elem? g.postings left) [
          | none ↦ some 0
          | some posting ↦ some (if posting.local_id == local_id then posting.term_frequency else 0)
        ]
      ]

-- `termFrequency` of the document for each of the terms.
unfoldable pub frequencies : LoadedSegment → List SegmentTermRecord → ℕ → Option (List ℕ)
frequencies g [] local_id = some []
frequencies g (t ∷ ts) local_id = elim (term_frequency g t local_id) [
  | none ↦ none
  | some n ↦ elim (frequencies g ts local_id) [ none ↦ none | some ns ↦ some (n ∷ ns) ]
]
