-- ===== src/Store/Terms/Safe.antt =====
-- `loadTerms` of 02_SMT_LogTrace/src/indexing/segment_store.cpp reads inside of the posting table.
use work_smt.Base.{inl, inr, Bool-cases, arith, ◌≢◌, ltb, zero, suc, ℕ, List}
use work_smt.Base.Results.{thrown, ok, ◌>>=◌, Result}
use work_smt.Base.Bytes.{codes, Bytes}
use work_smt.Index.Segments.{SegmentPosting, SegmentTermRecord}
use work_smt.Store.Codec.{
  outside_of_table, StoreError, Reader, ◌>>>◌, give, finish, load_all, read_bytes, require_magic,
  word, read_uint32, read_uint64, read_string, read_header, string_limit,
}
use work_smt.Store.Terms.{
  read_term, valid_term, increasing, check_term, read_terms, load_terms, no_terms, posting_range,
  TermTable,
}
use work_smt.Store.Terms.Loaded.{read_local_ids-valid}

abbrev IsSafe : {A : Type 0} → Result StoreError A → Type 0
IsSafe r = r ≢ thrown outside_of_table

abbrev Reads : {A : Type 0} → Reader A → Type 0
Reads p = (bytes : Bytes) → IsSafe (p bytes)

IsSafe-bind :
    {A B : Type 0} (m : Result StoreError A) (f : A → Result StoreError B)
    → IsSafe m
    → ((a : A) → IsSafe (f a))
    → IsSafe (m >>= f)
IsSafe-bind (thrown e) f h k = λ x. h (cc x)
IsSafe-bind (ok a) f h k = k a

Reads-bind :
    {A B : Type 0} (p : Reader A) (f : A → Reader B)
    → Reads p
    → ((a : A) → Reads (f a))
    → Reads (p >>> f)
unfolding ◌>>>◌
Reads-bind p f h k bytes = IsSafe-bind (p bytes) _ (h bytes) (λ x. k x.0 x.1)

Reads-give : {A : Type 0} (a : A) → Reads (give a)
Reads-give a bytes = λ x. cc x

Reads-bytes : (n : ℕ) → Reads (read_bytes n)
unfolding read_bytes
Reads-bytes n bytes = λ x. ground arith

Reads-uint32 : Reads read_uint32
unfolding read_uint32
Reads-uint32 = Reads-bind (read_bytes 4) _ (Reads-bytes 4) (λ bs. Reads-give (word bs))

Reads-uint64 : Reads read_uint64
unfolding read_uint64
Reads-uint64 = Reads-bind (read_bytes 8) _ (Reads-bytes 8) (λ bs. Reads-give (word bs))

Reads-string : Reads read_string
unfolding read_string
Reads-string = Reads-bind read_uint32 _ Reads-uint32 (λ size rest.
    let r = Reads-bytes size rest in
    elim (Bool-cases (ltb string_limit size)) [ inl e ↦ rw e (λ x. cc x) | inr e ↦ rw e r ])

Reads-term : Reads read_term
unfolding read_term
Reads-term = Reads-bind read_string _ Reads-string (λ a. Reads-bind read_uint32 _ Reads-uint32 (λ b.
    Reads-bind read_uint64 _ Reads-uint64
      (λ c. Reads-bind read_uint32 _ Reads-uint32 (λ d. Reads-give _))))

Reads-magic : (magic : Bytes) → Reads (require_magic magic)
unfolding require_magic
Reads-magic magic bytes = λ x. ground arith

Reads-header : (magic : Bytes) (count : ℕ) → Reads (read_header magic count)
unfolding read_header
Reads-header magic count = Reads-bind (require_magic magic) _ (Reads-magic magic) (λ u.
    Reads-bind read_uint32 _ Reads-uint32
      (λ version. Reads-bind read_uint64 _ Reads-uint64 (λ n rest x. ground arith)))

-- The checks of a term come before its postings are read.
check_term-IsSafe :
    (postings : List SegmentPosting) (s : TermTable) (t : SegmentTermRecord)
    → IsSafe (check_term postings s t)
unfolding check_term
check_term-IsSafe postings s t x =
    elim (Bool-cases (valid_term postings s.expected_begin s.previous t)) [
      | inr v ↦ ground arith
      | inl v ↦
          let reads = read_local_ids-valid postings s.expected_begin s.previous t v in
          elim (Bool-cases (increasing (posting_range postings t))) [
            | inr u ↦ ground arith
            | inl u ↦ ground arith
          ]
    ]

Reads-terms :
    (postings : List SegmentPosting) (n : ℕ) (s : TermTable) → Reads (read_terms postings n s)
unfolding read_terms
Reads-terms postings zero s = Reads-give s
Reads-terms postings (suc n) s = Reads-bind read_term _ Reads-term (λ t rest.
    IsSafe-bind (check_term postings s t) _ (check_term-IsSafe postings s t)
      (λ next. Reads-terms postings n next rest))

finish-IsSafe : (rest : Bytes) → IsSafe (finish rest)
unfolding finish
finish-IsSafe rest = λ x. ground arith

-- Whatever bytes the loader of the terms gets, however many terms are expected and whatever the posting
-- table holds, the loop that compares the local ids of a term never reads outside of this table.
pub load_terms-inside :
    (content : Bytes) (expected_count : ℕ) (postings : List SegmentPosting)
    → load_terms content expected_count postings ≢ thrown outside_of_table
unfolding load_terms load_all
load_terms-inside content expected_count postings =
    IsSafe-bind _ _
      (Reads-bind (read_header (codes "LTTRM001") expected_count) _
        (Reads-header (codes "LTTRM001") expected_count)
        (λ u.
          Reads-bind (read_terms postings expected_count no_terms) _
            (Reads-terms postings expected_count no_terms) (λ s rest x. ground arith))
        content)
      (λ a. IsSafe-bind (finish a.1) _ (finish-IsSafe a.1) (λ u x. cc x))
