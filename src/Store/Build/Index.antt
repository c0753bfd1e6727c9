-- ===== src/Store/Build/Index.antt =====
-- The inverted index of a built segment lists exactly the words of its documents.
use work_smt.Base.{
  subst, is_empty, leb, Option, not, take-append_self, drop-append_self, append_assoc, some,
  length-append, sym, ◌&&◌, true, suc, ◌||◌, ◌∙◌, ◌+◌, refl, none, ◌++◌, ap, map, ◌==◌, false, ◌≡◌,
  length, Bool, arith, ◌∷◌, [], ℕ, List,
}
use work_smt.Store.Build.{
  no_searchable_terms, document_frequency_exceeded, sizes_fit, archive_changed, all_unchanged,
  not_representable, time_invalid, term_count_changed, file_record, BuiltSegment, BuildError,
  record_unreadable, unknown_file, ParsedBatch, build, required, uint32_max, find_file, Tables,
  ParsedArtifactDocument, add_documents, all_postings, add_document, term_records, BuildPlatform,
  list_postings, count_terms, add_postings,
}
use work_smt.Base.Results.{ensure-eq-ok, >>=-eq-ok, ok-injective, ok}
use work_smt.Parsing.Tokenizer.{tokenize_terms}
use work_smt.Base.SortedMap.{holds_at}
use work_smt.Base.Bytes.{bytes_eq, Bytes}
use work_smt.Search.Postings.Intersection.{has_id}
use work_smt.Index.Segments.{SegmentTermRecord, SegmentPosting, SegmentFileRecord}
use work_smt.Search.Query.{contains}
use work_smt.Store.Terms.{posting_range}
use work_smt.Store.Build.Inverted.{lists, has_word-count_terms, lists-add_postings}

-- Some term of the table is the word, and the document is in its posting list.
abbrev pub in_index : List SegmentTermRecord → List SegmentPosting → Bytes → ℕ → Bool
in_index [] postings w j = false
in_index (t ∷ ts) postings w j =
    (bytes_eq t.term w && has_id j (posting_range postings t)) || in_index ts postings w j

length-list_postings : (ids : List (ℕ × ℕ)) → length (list_postings ids) ≡ length ids
unfolding list_postings
length-list_postings [] = refl
length-list_postings (e ∷ ids) = ap suc (length-list_postings ids)

has_id-list_postings :
    (j : ℕ) (ids : List (ℕ × ℕ))
    → has_id j (map (λ p. p.local_id) (list_postings ids)) ≡ holds_at ◌==◌ j (λ n. true) ids
unfolding list_postings
has_id-list_postings j [] = refl
has_id-list_postings j (e ∷ ids) = let r = has_id-list_postings j ids in ground arith

-- The range of a term that stands behind `before` and before `after` in the posting table.
posting_range-middle :
    (front back : List SegmentPosting) (ids : List (ℕ × ℕ)) (t : SegmentTermRecord)
    → t.posting_begin ≡ length front
    → t.posting_count ≡ length ids
    → posting_range (front ++ (list_postings ids ++ back)) t
      ≡ map (λ p. p.local_id) (list_postings ids)
unfolding posting_range
posting_range-middle front back ids t b c =
    let n : t.posting_count ≡ length (list_postings ids) = c ∙ sym (length-list_postings ids) in
    rw
      (
        b,
        n,
        drop-append_self front (list_postings ids ++ back),
        take-append_self (list_postings ids) back,
      )
      refl

in_index-term_records :
    (w : Bytes) (j : ℕ) (front : List SegmentPosting) (inverted : List (Bytes × List (ℕ × ℕ)))
    → in_index (term_records (length front) inverted) (front ++ all_postings inverted) w j
      ≡ lists w j inverted
unfolding term_records all_postings
in_index-term_records w j front [] = refl
in_index-term_records w j front (e ∷ inverted) =
    let range =
      posting_range-middle front (all_postings inverted) e.1
        (record {
          term = e.0;
          document_frequency = length e.1;
          posting_begin = length front;
          posting_count = length e.1;
        })
        refl refl in
    let ids = has_id-list_postings j e.1 in
    let begin : length (front ++ list_postings e.1) ≡ length front + length e.1 =
      length-append front (list_postings e.1) ∙ ap (length front +◌) (length-list_postings e.1) in
    let rest = in_index-term_records w j (front ++ list_postings e.1) inverted in
    let whole = append_assoc front (list_postings e.1) (all_postings inverted) in
    rw (range, ids, ← begin, ← whole, rest) refl

pub required-eq-ok :
    {A : Type 0} (o : Option A) (error : BuildError) (a : A) → required error o ≡ ok a → o ≡ some a
unfolding required
required-eq-ok none error a h = cc
required-eq-ok (some x) error a h = ap some (ok-injective h)

module _ (p : BuildPlatform) where
  -- The terms of the document's bytes in its archive; none when these cannot be read.
  abbrev pub words_of : List SegmentFileRecord → ParsedArtifactDocument → List Bytes
  words_of files d = elim (find_file d.document.archive_id 0 files) [
    | none ↦ []
    | some found ↦ elim (p.read_record found.1 d.document.byte_offset d.document.byte_length) [
      | none ↦ []
      | some raw ↦ tokenize_terms raw
    ]
  ]

  pub words_of-found :
      (files : List SegmentFileRecord) (d : ParsedArtifactDocument) (found : ℕ × SegmentFileRecord)
      (raw : Bytes)
      → find_file d.document.archive_id 0 files ≡ some found
      → p.read_record found.1 d.document.byte_offset d.document.byte_length ≡ some raw
      → words_of files d ≡ tokenize_terms raw
  words_of-found files d found raw e e₂ = rw (words_of, e, e₂) refl

  -- One of the documents has the local id, and the word is a term of its bytes in the archive.
  abbrev pub mentions : List SegmentFileRecord → List ParsedArtifactDocument → Bytes → ℕ → Bool
  mentions files [] w j = false
  mentions files (d ∷ ds) w j =
      (d.local_id == j && contains (words_of files d) w) || mentions files ds w j

  lists-add_document :
      (w : Bytes) (j batch_id : ℕ) (files : List SegmentFileRecord) (s r : Tables)
      (d : ParsedArtifactDocument)
      → add_document p batch_id files s d ≡ ok r
      → lists w j r.inverted
        ≡ ((d.local_id == j && contains (words_of files d) w) || lists w j s.inverted)
  unfolding add_document
  lists-add_document w j batch_id files s r d h =
      let (found, e, h₁) =
        >>=-eq-ok (required unknown_file (find_file d.document.archive_id 0 files)) _ h in
      let (raw, e₂, h₂) =
        >>=-eq-ok
          (required record_unreadable
            (p.read_record found.1 d.document.byte_offset d.document.byte_length))
          _ h₁ in
      let file = required-eq-ok _ unknown_file found e in
      let bytes = required-eq-ok _ record_unreadable raw e₂ in
      let terms : words_of files d ≡ tokenize_terms raw =
        words_of-found files d found raw file bytes in
      let (guard, h₃) =
        ensure-eq-ok
          (length (tokenize_terms raw) == d.document.term_count
            && leb (length (tokenize_terms raw)) uint32_max)
          term_count_changed _ h₂ in
      let (frequencies, e₃, h₄) = >>=-eq-ok (count_terms [] (tokenize_terms raw)) _ h₃ in
      let (occurred, e₄, h₅) =
        >>=-eq-ok (required time_invalid (p.read_time d.document.occurred_at)) _ h₄ in
      let (archived, e₅, h₆) =
        >>=-eq-ok (required time_invalid (p.read_time d.document.archived_at)) _ h₅ in
      let whole : add_postings d.local_id frequencies s.inverted ≡ r.inverted =
        ap (λ x. x.inverted) (ok-injective h₆) in
      let a = has_word-count_terms w [] frequencies (tokenize_terms raw) e₃ in
      let b = lists-add_postings w j d.local_id frequencies s.inverted in
      rw (← whole, b, a, terms) (ground arith)

  lists-add_documents :
      (w : Bytes) (j batch_id : ℕ) (files : List SegmentFileRecord) (s r : Tables)
      (ds : List ParsedArtifactDocument)
      → add_documents p batch_id files s ds ≡ ok r
      → lists w j r.inverted ≡ (mentions files ds w j || lists w j s.inverted)
  unfolding add_documents
  lists-add_documents w j batch_id files s r [] h =
      ap (λ x. lists w j x.inverted) (sym (ok-injective h))
  lists-add_documents w j batch_id files s r (d ∷ ds) h =
      let (next, e, k) = >>=-eq-ok (add_document p batch_id files s d) _ h in
      let a = lists-add_document w j batch_id files s next d e in
      let b = lists-add_documents w j batch_id files next r ds k in ground (arith, a, b)

  -- When a segment is built, its index has a document in the posting list of a word exactly if one of
  -- the parsed documents has this local id and the word is among the terms of the bytes that the
  -- archive holds for it.
  pub build-in_index :
      (batch : ParsedBatch) (g : BuiltSegment) (w : Bytes) (j : ℕ)
      → build p batch ≡ ok g
      → in_index g.terms g.postings w j ≡ mentions (map file_record batch.files) batch.documents w j
  unfolding build
  build-in_index batch g w j h =
      let files = map file_record batch.files in
      let (a, h₁) =
        ensure-eq-ok
          (leb batch.batch_id uint32_max
            && not (is_empty batch.files)
            && not (is_empty batch.documents))
          not_representable _ h in
      let (b, h₂) = ensure-eq-ok (all_unchanged p files) archive_changed _ h₁ in
      let empty : Tables = record { documents = []; inverted = [] } in
      let (s, e, h₃) =
        >>=-eq-ok (add_documents p batch.batch_id files empty batch.documents) _ h₂ in
      let (c, h₄) = ensure-eq-ok (sizes_fit s.inverted) document_frequency_exceeded _ h₃ in
      let (d, h₅) =
        ensure-eq-ok
          (not (is_empty (term_records 0 s.inverted) || is_empty (all_postings s.inverted)))
          no_searchable_terms _ h₄ in
      let whole = ok-injective h₅ in
      let built = in_index-term_records w j [] s.inverted in
      let words = lists-add_documents w j batch.batch_id files empty s batch.documents e in
      subst (λ z. in_index z.terms z.postings w j ≡ mentions files batch.documents w j) whole
        (built ∙ words ∙ ground arith)
