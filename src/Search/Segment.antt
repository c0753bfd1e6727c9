-- ===== src/Search/Segment.antt =====
-- 02_SMT_LogTrace/src/search/search_engine.cpp: the documents of the segments that a query selects,
-- `none` where the code would read outside of a table. The frequencies are read as the source does;
-- the scores that it makes of them and the ranking are not part of it.
pub mod Selection
pub mod Hits
pub mod Totals
pub mod Scan
use work_smt.Search.Query.{matches_filters, SearchQuery}
use work_smt.Base.{◌+◌, map, false, get_elem?, ◌++◌, true, [], some, none, Option, ◌∷◌, ℕ, List}
use work_smt.Search.Postings.{frequencies, sort_terms, candidates}
use work_smt.Base.Bytes.{bytes_eq, Bytes}
use work_smt.Index.Segments.{SegmentDocumentRecord, SegmentTermRecord, LoadedSegment}

unfoldable pub find_index : Bytes → List (Bytes × ℕ) → Option ℕ
find_index word [] = none
find_index word (e ∷ es) = elim (bytes_eq e.0 word) [ true ↦ some e.1 | false ↦ find_index word es ]

-- What the loop over the query's terms ends with.
pub data FoundTerms : Type 0 where
  absent_term : FoundTerms
  out_of_range : FoundTerms
  found : List SegmentTermRecord → FoundTerms

unfoldable pub find_terms : LoadedSegment → List Bytes → List SegmentTermRecord → FoundTerms
find_terms g [] segment_terms = found segment_terms
find_terms g (word ∷ words) segment_terms = elim (find_index word g.term_lookup) [
  | none ↦ absent_term
  | some index ↦ elim (get_elem? g.terms index) [
    | none ↦ out_of_range
    | some t ↦ find_terms g words (segment_terms ++ t ∷ [])
  ]
]

-- The loop over the candidates: a document that passes the filters is a hit, for whose score the
-- frequency of each term is read.
unfoldable pub select :
    LoadedSegment
    → SearchQuery
    → List SegmentTermRecord
    → List ℕ
    → Option (List SegmentDocumentRecord)
select g query segment_terms [] = some []
select g query segment_terms (local ∷ locals) = elim (get_elem? g.documents local) [
  | none ↦ none
  | some document ↦ elim (matches_filters document query) [
    | false ↦ select g query segment_terms locals
    | true ↦ elim (frequencies g segment_terms local) [
      | none ↦ none
      | some counts ↦ elim (select g query segment_terms locals) [
        | none ↦ none
        | some rest ↦ some (document ∷ rest)
      ]
    ]
  ]
]

unfoldable pub search_segment :
    LoadedSegment → SearchQuery → List Bytes → Option (List SegmentDocumentRecord)
search_segment g query terms = elim (find_terms g terms []) [
  | absent_term ↦ some []
  | out_of_range ↦ none
  | found segment_terms ↦ elim (candidates g (sort_terms segment_terms)) [
    | none ↦ none
    | some locals ↦ select g query (sort_terms segment_terms) locals
  ]
]

-- The loop over the terms for one segment, before the search: the sums of the document frequencies,
-- one for each term of the query. The terms are distinct, so each has one entry in `global_df`.
unfoldable pub add_frequencies : LoadedSegment → List Bytes → List ℕ → Option (List ℕ)
add_frequencies g (word ∷ words) (df ∷ dfs) = elim (add_frequencies g words dfs) [
  | none ↦ none
  | some sums ↦ elim (find_index word g.term_lookup) [
    | none ↦ some (df ∷ sums)
    | some index ↦ elim (get_elem? g.terms index) [
      | none ↦ none
      | some t ↦ some ((df + t.document_frequency) ∷ sums)
    ]
  ]
]
add_frequencies g words dfs = some []

unfoldable pub global_frequencies : List LoadedSegment → List Bytes → List ℕ → Option (List ℕ)
global_frequencies [] words dfs = some dfs
global_frequencies (g ∷ gs) words dfs = elim (add_frequencies g words dfs) [
  | none ↦ none
  | some sums ↦ global_frequencies gs words sums
]

-- One round per segment; the documents are those that `total_hits` counts.
unfoldable pub search_rounds :
    List LoadedSegment → SearchQuery → List Bytes → Option (List SegmentDocumentRecord)
search_rounds [] query terms = some []
search_rounds (g ∷ gs) query terms = elim (search_segment g query terms) [
  | none ↦ none
  | some hits ↦ elim (search_rounds gs query terms) [
    | none ↦ none
    | some rest ↦ some (hits ++ rest)
  ]
]

-- `search` on the segments of a snapshot, up to the ranking. The sums are needed for the scores only.
unfoldable pub search_segments :
    List LoadedSegment → SearchQuery → List Bytes → Option (List SegmentDocumentRecord)
search_segments gs query terms = elim (global_frequencies gs terms (map (λ term. 0) terms)) [
  | none ↦ none
  | some dfs ↦ search_rounds gs query terms
]
