-- ===== src/Search/Segment/Scan.antt =====
-- The search of a segment against a scan of all its documents.
use work_smt.Search.Segment.{
  search_rounds, search_segments, absent_term, search_segment, out_of_range, found, FoundTerms,
  find_terms, find_index,
}
use work_smt.Search.Segment.Selection.{
  in_all-sort_terms, candidates-Reads, All-sort_terms, in_all, listed, IsPosted,
}
use work_smt.Search.Segment.Totals.{global_frequencies_return, find_index-inside, HasNames}
use work_smt.Search.Segment.Hits.{select-chosen, chosen}
use work_smt.Search.Postings.Intersection.{has_id-below, Ascending, has_id}
use work_smt.Search.Postings.{sort_terms}
use work_smt.Base.{
  map, ◌∙◌, ap, ◌==◌, All-append, All-get_elem?, All-imp, get_elem?-inside, subst, ltb, inr, ◌≤◌,
  refl, inl, Bool-cases, [], if◌then◌else◌, false, ◌&&◌, some, ◌+◌, ◌++◌, Option-cases, suc, ◌∷◌,
  get_elem?, ◌≡◌, arith, true, length, none, Bool, List, ℕ, All,
}
use work_smt.Base.Bytes.{Bytes}
use work_smt.Search.Query.{matches_filters, SearchQuery}
use work_smt.Index.Segments.{SegmentTermRecord, SegmentDocumentRecord, LoadedSegment}

-- The word is in the dictionary of the segment, and the document in its posting list.
abbrev pub holds_word : LoadedSegment → ℕ → Bytes → Bool
holds_word g i word = elim (find_index word g.term_lookup) [
  | none ↦ false
  | some index ↦ elim (get_elem? g.terms index) [ none ↦ false | some t ↦ has_id i (listed g t) ]
]

abbrev pub holds_all : LoadedSegment → ℕ → List Bytes → Bool
holds_all g i [] = true
holds_all g i (word ∷ words) = holds_word g i word && holds_all g i words

-- The documents from place `i` on that hold all the words and pass the filters, in their order.
abbrev pub scan :
    LoadedSegment
    → SearchQuery
    → List Bytes
    → ℕ
    → List SegmentDocumentRecord
    → List SegmentDocumentRecord
scan g query words i [] = []
scan g query words i (d ∷ ds) =
    let rest = scan g query words (suc i) ds in
    if holds_all g i words && matches_filters d query then d ∷ rest else rest

-- The posting lists are in the table and ascend over the segment's documents, and the dictionary names terms of it.
pub record IsSearchable (g : LoadedSegment) : Type 0 where
  pub posted : All (IsPosted g) g.terms
  pub named : HasNames g

in_all-append :
    (g : LoadedSegment) (i : ℕ) (ts us : List SegmentTermRecord)
    → in_all g i (ts ++ us) ≡ (in_all g i ts && in_all g i us)
in_all-append g i [] us = refl
in_all-append g i (t ∷ ts) us = ground (arith, in_all-append g i ts us)

-- What the loop over the terms tells of the words it has left, after the terms `acc`.
abbrev Finds : LoadedSegment → List Bytes → List SegmentTermRecord → FoundTerms → Type 0
Finds g words acc absent_term = (i : ℕ) → (holds_all g i words ≡ false)
Finds g words acc out_of_range = ⊥
Finds g words acc (found ts) =
    All (IsPosted g) ts × ((i : ℕ) → (in_all g i ts ≡ (in_all g i acc && holds_all g i words)))

Finds-word :
    (g : LoadedSegment) (word : Bytes) (words : List Bytes) (acc : List SegmentTermRecord)
    (t : SegmentTermRecord) (r : FoundTerms)
    → ((i : ℕ) → holds_word g i word ≡ has_id i (listed g t))
    → Finds g words (acc ++ t ∷ []) r
    → Finds g (word ∷ words) acc r
Finds-word g word words acc t absent_term h k = λ i. let a = k i in ground arith
Finds-word g word words acc t out_of_range h k = k
Finds-word g word words acc t (found ts) h k = (
  k.0,
  λ i. let a = k.1 i in let b = h i in let c = in_all-append g i acc (t ∷ []) in ground arith,
)

find_terms-Finds :
    (g : LoadedSegment) (words : List Bytes) (acc : List SegmentTermRecord)
    → IsSearchable g
    → All (IsPosted g) acc
    → Finds g words acc (find_terms g words acc)
unfolding find_terms
find_terms-Finds g [] acc s h = (h, λ i. ground arith)
find_terms-Finds g (word ∷ words) acc s h = elim (Option-cases (find_index word g.term_lookup)) [
  | inl e ↦ rw (find_terms, e) (λ i. rw (holds_all, holds_word, e) refl)
  | inr (k, e) ↦
      let (t, f) =
        get_elem?-inside g.terms k
          (find_index-inside (length g.terms) word g.term_lookup k s.named e) in
      let posted = All-get_elem? (IsPosted g) g.terms k t s.posted f in
      rw (find_terms, e, f)
        (Finds-word g word words acc t (find_terms g words (acc ++ t ∷ []))
          (λ i. rw (holds_word, e, f) refl)
          (find_terms-Finds g words (acc ++ t ∷ []) s
            (All-append (IsPosted g) acc (t ∷ []) h (posted, tt))))
]

shifted :
    (g : LoadedSegment) (i : ℕ) (d : SegmentDocumentRecord) (ds : List SegmentDocumentRecord)
    → ((j : ℕ) → get_elem? g.documents (i + j) ≡ get_elem? (d ∷ ds) j)
    → (j : ℕ) → get_elem? g.documents (suc i + j) ≡ get_elem? ds j
shifted g i d ds h j =
    subst (λ n. get_elem? g.documents n ≡ get_elem? ds j) (omega arith) (h (suc j))

chosen-scan :
    (g : LoadedSegment) (query : SearchQuery) (words : List Bytes) (i : ℕ)
    (ds : List SegmentDocumentRecord) (ids : List ℕ)
    → ((j : ℕ) → get_elem? g.documents (i + j) ≡ get_elem? ds j)
    → Ascending i ids
    → ((j : ℕ) → i ≤ j → has_id j ids ≡ (ltb j (i + length ds) && holds_all g j words))
    → chosen g query ids ≡ some (scan g query words i ds)
unfolding chosen
chosen-scan g query words i [] [] h a p = refl
chosen-scan g query words i [] (x ∷ xs) h a p = let q = p x a.0 in let l = a.0 in ground arith
chosen-scan g query words i (d ∷ ds) [] h a p =
    let q = p i (omega arith) in
    let r =
      chosen-scan g query words (suc i) ds [] (λ j. shifted g i d ds h j) tt
        (λ j l. let w = p j (omega (arith, l)) in ground arith) in
    ground arith
chosen-scan g query words i (d ∷ ds) (x ∷ xs) h a p =
    let q = p i (omega arith) in
    let low = a.0 in
    elim (Bool-cases (x == i)) [
      | inl e ↦
          let same : x ≡ i = ground arith in
          let here : get_elem? g.documents x ≡ some d =
            ap (get_elem? g.documents) (omega (arith, same)) ∙ h 0 in
          let r =
            chosen-scan g query words (suc i) ds xs (λ j. shifted g i d ds h j)
              (subst (λ z. Ascending (suc z) xs) same a.1)
              (λ j l. let w = p j (omega (arith, l)) in ground arith) in
          ground arith
      | inr e ↦
          let none_here = has_id-below i x (x ∷ xs) (ground arith) (omega arith, a.1) in
          let r =
            chosen-scan g query words (suc i) ds (x ∷ xs) (λ j. shifted g i d ds h j)
              (ground arith, a.1) (λ j l. let w = p j (omega (arith, l)) in ground arith) in
          ground arith
    ]

search_found :
    (g : LoadedSegment) (query : SearchQuery) (words : List Bytes) (r : FoundTerms)
    → IsSearchable g
    → find_terms g words [] ≡ r
    → Finds g words [] r
    → search_segment g query words ≡ some (scan g query words 0 g.documents)
unfolding search_segment chosen
search_found g query words absent_term s e k =
    rw (search_segment, e)
      (chosen-scan g query words 0 g.documents [] (λ j. ap (get_elem? g.documents) (omega arith)) tt
        (λ j l. let a = k j in ground arith))
search_found g query words out_of_range s e k = absurd k
search_found g query words (found ts) s e k =
    let sorted = sort_terms ts in
    let posted = All-sort_terms (IsPosted g) ts k.0 in
    let c = candidates-Reads g sorted posted in
    rw (search_segment, e, c.answers)
      (select-chosen g query sorted c.ids (scan g query words 0 g.documents) posted (
        chosen-scan g query words 0 g.documents c.ids
          (λ j. ap (get_elem? g.documents) (omega arith)) c.ascends
          (λ j l.
            let a = k.1 j in let b = c.has j in let d = in_all-sort_terms g j ts in ground arith)))

-- When the posting lists of a segment are inside of its posting table and ascend over its documents,
-- and its dictionary names terms of it, the search of the segment, with the frequencies that it reads
-- for its scores, reads only inside of the tables and selects exactly the documents that a scan of all
-- documents selects, in the same order: those that occur in the posting list of every word of the
-- query and pass its filters. For a query without words these are the documents that pass the filters.
pub search_segment-scan :
    (g : LoadedSegment) (query : SearchQuery) (words : List Bytes)
    → IsSearchable g
    → search_segment g query words ≡ some (scan g query words 0 g.documents)
search_segment-scan g query words s =
    search_found g query words (find_terms g words []) s refl (find_terms-Finds g words [] s tt)

-- The scans of the segments, one after the other.
abbrev pub scan_all : List LoadedSegment → SearchQuery → List Bytes → List SegmentDocumentRecord
scan_all [] query words = []
scan_all (g ∷ gs) query words = scan g query words 0 g.documents ++ scan_all gs query words

search_rounds-scan :
    (gs : List LoadedSegment) (query : SearchQuery) (words : List Bytes)
    → All IsSearchable gs
    → search_rounds gs query words ≡ some (scan_all gs query words)
unfolding search_rounds
search_rounds-scan [] query words h = refl
search_rounds-scan (g ∷ gs) query words h =
    rw (search_rounds, search_segment-scan g query words h.0, search_rounds-scan gs query words h.1)
      refl

-- When every segment of the snapshot has posting lists inside of its posting table that ascend over
-- its documents and a dictionary that names terms of it, the search of the snapshot stays inside of the tables and
-- counts as hits exactly the documents that the scans of all the segments select.
pub search_segments-scan :
    (gs : List LoadedSegment) (query : SearchQuery) (words : List Bytes)
    → All IsSearchable gs
    → search_segments gs query words ≡ some (scan_all gs query words)
unfolding search_segments
search_segments-scan gs query words h =
    let (sums, e) =
      global_frequencies_return gs words (map (λ word. 0) words)
        (All-imp IsSearchable HasNames gs (λ g k. k.named) h) in
    rw (search_segments, e) (search_rounds-scan gs query words h)
