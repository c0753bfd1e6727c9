-- ===== src/Store/Terms.antt =====
-- 02_SMT_LogTrace/src/indexing/segment_store.cpp: serializeTerms and loadTerms.
pub mod Loaded
pub mod Safe
pub mod RoundTrip
pub mod Dictionary
use work_smt.Store.Codec.{
  outside_of_table, append_records, not_covering, not_increasing, append_uint64, accept,
  record_invalid, append_uint32, append_header, before, read_uint64, read_header, append_string,
  read_uint32, load_all, StoreError, ◌>>>◌, give, read_string, Reader,
}
use work_smt.Base.{
  some, none, ◌-◌, ◌==◌, ◌||◌, drop, ◌&&◌, zero, if◌then◌else◌, ◌+◌, ltb, suc, is_empty, take, map,
  false, true, length, not, Bool, ◌++◌, ◌∷◌, List, ℕ, [],
}
use work_smt.Search.Postings.{read_local_ids}
use work_smt.Base.Bytes.{codes, bytes_eq, Bytes}
use work_smt.Base.Results.{thrown, ◌>>=◌, ok, Result}
use work_smt.Index.Segments.{SegmentPosting, SegmentTermRecord}

unfoldable pub term_bytes : SegmentTermRecord → Result StoreError Bytes
term_bytes t = append_string t.term >>= λ text. ok (
    before (text ∷ append_uint32 t.document_frequency ∷ append_uint64 t.posting_begin ∷ [])
      (append_uint32 t.posting_count))

unfoldable pub serialize_terms : List SegmentTermRecord → Result StoreError Bytes
serialize_terms ts = append_records term_bytes ts >>= λ records.
    ok (append_header (codes "LTTRM001") (length ts) ++ records)

-- `<` of two strings, by their bytes.
unfoldable pub string_less : Bytes → Bytes → Bool
string_less xs [] = false
string_less [] (y ∷ ys) = true
string_less (x ∷ xs) (y ∷ ys) = ltb x y || (x == y && string_less xs ys)

unfoldable pub read_term : Reader SegmentTermRecord
read_term = read_string >>> λ term. read_uint32 >>> λ document_frequency.
    read_uint64 >>> λ posting_begin. read_uint32 >>> λ posting_count. give (record {
      term = term;
      document_frequency = document_frequency;
      posting_begin = posting_begin;
      posting_count = posting_count;
    })

-- The checks of a term after the term `previous`, for the next free place of the posting table.
unfoldable pub valid_term : List SegmentPosting → ℕ → Bytes → SegmentTermRecord → Bool
valid_term postings expected_begin previous t = not (
    is_empty t.term
    || (not (is_empty previous) && not (string_less previous t.term))
    || t.document_frequency == 0
    || not (t.document_frequency == t.posting_count)
    || not (t.posting_begin == expected_begin)
    || ltb (length postings) t.posting_begin
    || ltb (length postings - t.posting_begin) t.posting_count)

-- The rest of the loop over a posting list, after the id `previous_local`.
unfoldable pub increasing_after : ℕ → List ℕ → Bool
increasing_after previous_local [] = true
increasing_after previous_local (id ∷ ids) = ltb previous_local id && increasing_after id ids

unfoldable pub increasing : List ℕ → Bool
increasing [] = true
increasing (id ∷ ids) = increasing_after id ids

-- `lookup[word] = index`.
unfoldable pub assign : Bytes → ℕ → List (Bytes × ℕ) → List (Bytes × ℕ)
assign word index [] = (word, index) ∷ []
assign word index (e ∷ es) = elim (bytes_eq e.0 word) [
  | true ↦ (word, index) ∷ es
  | false ↦ e ∷ assign word index es
]

pub record TermTable : Type 0 where
  pub terms : List SegmentTermRecord
  pub lookup : List (Bytes × ℕ)
  pub expected_begin : ℕ
  pub previous : Bytes

unfoldable pub no_terms : TermTable
no_terms = record { terms = []; lookup = []; expected_begin = 0; previous = [] }

unfoldable pub add_term : TermTable → SegmentTermRecord → TermTable
add_term s t = record {
  terms = s.terms ++ t ∷ [];
  lookup = assign t.term (length s.terms) s.lookup;
  expected_begin = s.expected_begin + t.posting_count;
  previous = t.term;
}

-- The checks of one round, and the state after it. The source compares the local ids while it reads
-- them; here they are read first, and then compared.
unfoldable pub check_term :
    List SegmentPosting → TermTable → SegmentTermRecord → Result StoreError TermTable
check_term postings s t =
    if not (valid_term postings s.expected_begin s.previous t)
    then thrown record_invalid
    else (elim (read_local_ids postings t.posting_begin t.posting_count) [
      | none ↦ thrown outside_of_table
      | some ids ↦ if not (increasing ids) then thrown not_increasing else ok (add_term s t)
    ])

unfoldable pub read_terms : List SegmentPosting → ℕ → TermTable → Reader TermTable
read_terms postings zero s = give s
read_terms postings (suc n) s =
    read_term >>> λ t. λ rest. check_term postings s t >>= λ next. read_terms postings n next rest

unfoldable pub load_terms : Bytes → ℕ → List SegmentPosting → Result StoreError TermTable
load_terms content expected_count postings =
    load_all
      (read_header (codes "LTTRM001") expected_count >>> λ _.
        read_terms postings expected_count no_terms >>> λ s.
        accept (s.expected_begin == length postings) not_covering s)
      content

-- The local ids in the part of the posting table that the term names.
unfoldable pub posting_range : List SegmentPosting → SegmentTermRecord → List ℕ
posting_range postings t =
    map (λ p. p.local_id) (take t.posting_count (drop t.posting_begin postings))
