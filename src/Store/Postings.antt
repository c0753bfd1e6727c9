-- ===== src/Store/Postings.antt =====
-- 02_SMT_LogTrace/src/indexing/segment_store.cpp: serializePostings and loadPostings.
pub mod RoundTrip
pub mod Loaded
use work_smt.Base.{◌==◌, ◌++◌, zero, ◌||◌, leb, length, suc, not, [], Bool, ◌∷◌, List, ℕ}
use work_smt.Store.Codec.{
  record_invalid, append_uint32, read_header, accept, before, load_all, ◌>>>◌, StoreError,
  read_uint32, append_header, give, Reader,
}
use work_smt.Base.Bytes.{codes, Bytes}
use work_smt.Index.Segments.{SegmentPosting}
use work_smt.Base.Results.{Result}

unfoldable pub posting_bytes : SegmentPosting → Bytes
posting_bytes p = before (append_uint32 p.local_id ∷ []) (append_uint32 p.term_frequency)

unfoldable pub postings_bytes : List SegmentPosting → Bytes
postings_bytes [] = []
postings_bytes (p ∷ ps) = posting_bytes p ++ postings_bytes ps

unfoldable pub serialize_postings : List SegmentPosting → Bytes
serialize_postings ps = append_header (codes "LTPST001") (length ps) ++ postings_bytes ps

unfoldable pub valid_posting : ℕ → SegmentPosting → Bool
valid_posting document_count p = not (leb document_count p.local_id || p.term_frequency == 0)

unfoldable pub read_posting : ℕ → Reader SegmentPosting
read_posting document_count = read_uint32 >>> λ local_id. read_uint32 >>> λ term_frequency.
    let p : SegmentPosting = record { local_id = local_id; term_frequency = term_frequency } in
    accept (valid_posting document_count p) record_invalid p

unfoldable pub read_postings : ℕ → ℕ → Reader (List SegmentPosting)
read_postings document_count zero = give []
read_postings document_count (suc n) =
    read_posting document_count >>> λ p. read_postings document_count n >>> λ ps. give (p ∷ ps)

unfoldable pub load_postings : Bytes → ℕ → ℕ → Result StoreError (List SegmentPosting)
load_postings content expected_count document_count =
    load_all
      (read_header (codes "LTPST001") expected_count >>> λ _.
        read_postings document_count expected_count)
      content
