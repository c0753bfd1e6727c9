-- ===== src/Store/Build/Meaning.antt =====
-- The search of a segment that was built and then loaded, against the bytes of the archives.
use work_smt.Base.{
  append-nil, arith, sym, subst, false, ◌<◌, ◌≤◌, ap, ◌∙◌, some, map, length, refl, [],
  if◌then◌else◌, suc, ◌&&◌, ◌∷◌, ◌≡◌, true, List, Bool, ℕ,
}
use work_smt.Store.Load.Searchable.{search_segments-IsLoaded, IsLoaded}
use work_smt.Store.Build.Index.{build-in_index, words_of, mentions, in_index}
use work_smt.Store.Build.Records.{build-AreRecordsOf, AreRecordsOf}
use work_smt.Store.Documents.Loaded.{load_documents-AreValid, AreValid}
use work_smt.Store.Documents.{valid_document}
use work_smt.Store.Load.Tables.{load_segment-LoadedFrom, LoadedFrom}
use work_smt.Search.Segment.{search_segments}
use work_smt.Base.Results.{ok}
use work_smt.Store.Build.{
  segment_document, ParsedArtifactDocument, file_record, build, BuiltSegment, ParsedBatch,
  BuildPlatform,
}
use work_smt.Store.Terms.Dictionary.{load_terms-IsDictionary}
use work_smt.Search.Query.{contains, matches_filters, SearchQuery}
use work_smt.Store.Postings.Loaded.{load_postings-IsInside}
use work_smt.Search.Segment.Scan.{scan, holds_all, holds_word}
use work_smt.Index.Segments.{SegmentFileRecord, SegmentDocumentRecord, LoadedSegment}
use work_smt.Store.Load.{SegmentFiles, Manifest, StorePlatform}
use work_smt.Base.Bytes.{Bytes}
use work_smt.Store.Terms.{posting_range}

-- The dictionary of a loaded segment gives for each word the documents of its index.
LoadedFrom-holds_word :
    (p : StorePlatform) (m : Manifest p.Double) (contents : SegmentFiles) (g : LoadedSegment)
    (w : Bytes) (i : ℕ)
    → LoadedFrom p m contents g
    → holds_word g i w ≡ in_index g.terms g.postings w i
unfolding posting_range
LoadedFrom-holds_word p m contents g w i l =
    let (inside, count) =
      load_postings-IsInside contents.postings m.posting_count (length g.documents) g.postings
        l.postings in
    let d =
      load_terms-IsDictionary contents.terms m.term_count (length g.documents) g.postings l.table
        inside l.loads_table in
    rw (l.terms, l.lookup) (d.leads w i)

abbrev has_every : (ℕ → Bytes → Bool) → ℕ → List Bytes → Bool
has_every has i [] = true
has_every has i (word ∷ words) = has i word && has_every has i words

-- The documents from place `i` on that have all the words and pass the filters, in their order.
abbrev select_by :
    (ℕ → Bytes → Bool)
    → SearchQuery
    → List Bytes
    → ℕ
    → List SegmentDocumentRecord
    → List SegmentDocumentRecord
select_by has query words i [] = []
select_by has query words i (d ∷ ds) =
    let rest = select_by has query words (suc i) ds in
    if has_every has i words && matches_filters d query then d ∷ rest else rest

holds_all-has_every :
    (g : LoadedSegment) (has : ℕ → Bytes → Bool) (i : ℕ) (words : List Bytes)
    → ((w : Bytes) (j : ℕ) → holds_word g j w ≡ has j w)
    → holds_all g i words ≡ has_every has i words
holds_all-has_every g has i [] h = refl
holds_all-has_every g has i (word ∷ words) h =
    let r = holds_all-has_every g has i words h in let a = h word i in rw (holds_all, a, r) refl

scan-select_by :
    (g : LoadedSegment) (has : ℕ → Bytes → Bool) (query : SearchQuery) (words : List Bytes) (i : ℕ)
    (ds : List SegmentDocumentRecord)
    → ((w : Bytes) (j : ℕ) → holds_word g j w ≡ has j w)
    → scan g query words i ds ≡ select_by has query words i ds
scan-select_by g has query words i [] h = refl
scan-select_by g has query words i (d ∷ ds) h =
    let r = scan-select_by g has query words (suc i) ds h in
    let a = holds_all-has_every g has i words h in rw (scan, r, a) refl

-- The documents of a batch that have a word, by the bytes that the archives hold for them.
abbrev archived : BuildPlatform → ParsedBatch → ℕ → Bytes → Bool
archived b batch i w = mentions b (map file_record batch.files) batch.documents w i

-- The local ids are the places.
abbrev Numbered : ℕ → List ParsedArtifactDocument → Type 0
Numbered i [] = Unit
Numbered i (x ∷ xs) = (x.local_id ≡ i) × Numbered (suc i) xs

AreValid-Numbered :
    (b : BuildPlatform) (batch_id n i : ℕ) (fs gs : List SegmentFileRecord)
    (xs : List ParsedArtifactDocument) (ds : List SegmentDocumentRecord)
    → AreRecordsOf b batch_id fs xs ds
    → AreValid n gs i ds
    → Numbered i xs
unfolding valid_document segment_document
AreValid-Numbered b batch_id n i fs gs [] ds r v = tt
AreValid-Numbered b batch_id n i fs gs (x ∷ xs) [] r v = absurd r
AreValid-Numbered b batch_id n i fs gs (x ∷ xs) (d ∷ ds) r v =
    let place : d.local_id ≡ i = let h = v.0 in ground arith in
    (
      sym (ap (λ z. z.local_id) r.0.fields) ∙ place,
      AreValid-Numbered b batch_id n (suc i) fs gs xs ds r.1 v.1,
    )

mentions-before :
    (b : BuildPlatform) (files : List SegmentFileRecord) (w : Bytes) (i j : ℕ)
    (xs : List ParsedArtifactDocument)
    → Numbered j xs
    → i < j
    → mentions b files xs w i ≡ false
mentions-before b files w i j [] h l = refl
mentions-before b files w i j (x ∷ xs) h l =
    let place = h.0 in
    let r = mentions-before b files w i (suc j) xs h.1 (omega (arith, l)) in ground arith

-- All the words of the query are terms of the document's bytes in the archive.
abbrev pub contains_all :
    BuildPlatform → List SegmentFileRecord → ParsedArtifactDocument → List Bytes → Bool
contains_all b files x [] = true
contains_all b files x (word ∷ words) =
    contains (words_of b files x) word && contains_all b files x words

-- The records, in their order, of the parsed documents whose bytes in the archive contain all the words
-- and that pass the filters.
abbrev pub select_archived :
    BuildPlatform
    → List SegmentFileRecord
    → SearchQuery
    → List Bytes
    → List ParsedArtifactDocument
    → List SegmentDocumentRecord
    → List SegmentDocumentRecord
select_archived b files query words [] ds = []
select_archived b files query words (x ∷ xs) [] = []
select_archived b files query words (x ∷ xs) (d ∷ ds) =
    let rest = select_archived b files query words xs ds in
    if contains_all b files x words && matches_filters d query then d ∷ rest else rest

module _ (b : BuildPlatform) (files : List SegmentFileRecord) (has : ℕ → Bytes → Bool) where
  mentions-first :
      (w : Bytes) (i : ℕ) (x : ParsedArtifactDocument) (xs : List ParsedArtifactDocument)
      → Numbered i (x ∷ xs)
      → mentions b files (x ∷ xs) w i ≡ contains (words_of b files x) w
  mentions-first w i x xs h =
      let place = h.0 in
      let r = mentions-before b files w i (suc i) xs h.1 (omega arith) in ground arith

  has_every-contains_all :
      (i : ℕ) (x : ParsedArtifactDocument) (words : List Bytes)
      → ((w : Bytes) → has i w ≡ contains (words_of b files x) w)
      → has_every has i words ≡ contains_all b files x words
  has_every-contains_all i x [] h = refl
  has_every-contains_all i x (word ∷ words) h =
      rw (has_every, h word, has_every-contains_all i x words h) refl

  mentions-rest :
      (w : Bytes) (i j : ℕ) (x : ParsedArtifactDocument) (xs : List ParsedArtifactDocument)
      → x.local_id ≡ i
      → i < j
      → mentions b files (x ∷ xs) w j ≡ mentions b files xs w j
  mentions-rest w i j x xs e l = ground arith

  select_by-select_archived :
      (batch_id : ℕ) (query : SearchQuery) (words : List Bytes) (i : ℕ)
      (xs : List ParsedArtifactDocument) (ds : List SegmentDocumentRecord)
      → AreRecordsOf b batch_id files xs ds
      → Numbered i xs
      → ((w : Bytes) (j : ℕ) → i ≤ j → has j w ≡ mentions b files xs w j)
      → select_by has query words i ds ≡ select_archived b files query words xs ds
  select_by-select_archived batch_id query words i [] [] r n h = refl
  select_by-select_archived batch_id query words i [] (d ∷ ds) r n h = absurd r
  select_by-select_archived batch_id query words i (x ∷ xs) [] r n h = refl
  select_by-select_archived batch_id query words i (x ∷ xs) (d ∷ ds) r n h =
      let here =
        has_every-contains_all i x words (λ w. h w i (omega arith) ∙ mentions-first w i x xs n) in
      let rest =
        select_by-select_archived batch_id query words (suc i) xs ds r.1 n.1
          (λ w j l. h w j (omega (arith, l)) ∙ mentions-rest w i j x xs n.0 (omega (arith, l))) in
      rw (select_by, here, rest) refl

-- When the store has loaded a segment whose documents, terms and postings are those that the build of a
-- batch has made, these documents are the records of the batch's documents, one for each, with the
-- fields of the document and the place of its file; and the search of the segment never reads outside
-- of a table and selects exactly the records of those documents whose bytes in the archive contain all
-- the words of the query and which pass its filters, in their order.
pub search_segments-build :
    (b : BuildPlatform) (batch : ParsedBatch) (built : BuiltSegment) (p : StorePlatform)
    (g : LoadedSegment) (query : SearchQuery) (words : List Bytes)
    → build b batch ≡ ok built
    → IsLoaded p g
    → g.documents ≡ built.documents
    → g.terms ≡ built.terms
    → g.postings ≡ built.postings
    → let files = map file_record batch.files in
      AreRecordsOf b batch.batch_id files batch.documents g.documents
      × (search_segments (g ∷ []) query words
          ≡ some (select_archived b files query words batch.documents g.documents))
search_segments-build b batch built p g query words h l same_documents same_terms same_postings =
    let files = map file_record batch.files in
    let (m, f, s, e, low) =
      load_segment-LoadedFrom p l.name l.batch_id l.sha l.contents g l.loads in
    let all : (w : Bytes) (i : ℕ) → holds_word g i w ≡ archived b batch i w = λ w i.
      LoadedFrom-holds_word p m l.contents g w i f
      ∙ rw (same_terms, same_postings) (build-in_index b batch built w i h) in
    let records =
      subst (AreRecordsOf b batch.batch_id files batch.documents) (sym same_documents)
        (build-AreRecordsOf b batch built h) in
    let (valid, count) =
      load_documents-AreValid l.contents.documents m.document_count m.batch_id g.files g.documents
        f.documents in
    let numbered =
      AreValid-Numbered b batch.batch_id m.batch_id 0 files g.files batch.documents g.documents
        records valid in
    let scanned = scan-select_by g (archived b batch) query words 0 g.documents all in
    let selected =
      select_by-select_archived b files (archived b batch) batch.batch_id query words 0
        batch.documents g.documents records numbered (λ w j l. refl) in
    (
      records,
      search_segments-IsLoaded p (g ∷ []) query words (l, tt)
          ∙ ap some (append-nil (scan g query words 0 g.documents) ∙ scanned ∙ selected),
    )
