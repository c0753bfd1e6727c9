-- ===== src/Store/Postings/RoundTrip.antt =====
-- Postings are loaded as they were written.
use work_smt.Base.Bytes.{codes}
use work_smt.Base.{refl, [], true, ◌≡◌, ◌∷◌, ◌^◌, All, length, ◌<◌, List, ℕ}
use work_smt.Store.Codec.Reads.{
  Reads-header, load_all-Reads, Reads-last, Reads-accept, Reads-uint32, Reads-bind, Reads,
}
use work_smt.Store.Codec.{record_invalid}
use work_smt.Base.Results.{ok}
use work_smt.Store.Postings.{
  valid_posting, serialize_postings, posting_bytes, postings_bytes, load_postings, read_posting,
  read_postings,
}
use work_smt.Index.Segments.{SegmentPosting}

abbrev pub IsWritable : ℕ → SegmentPosting → Type 0
IsWritable n p = (p.local_id < 2 ^ 32) × (p.term_frequency < 2 ^ 32) × (valid_posting n p ≡ true)

Reads-posting :
    (n : ℕ) (p : SegmentPosting) → IsWritable n p → Reads (read_posting n) (posting_bytes p) p
unfolding read_posting posting_bytes
Reads-posting n p (l, f, v) = Reads-bind _ (Reads-uint32 p.local_id l) (
    Reads-accept (λ f. valid_posting n (record { local_id = p.local_id; term_frequency = f }))
      record_invalid (λ f. record { local_id = p.local_id; term_frequency = f })
      (Reads-uint32 p.term_frequency f) v)

Reads-postings :
    (n : ℕ) (ps : List SegmentPosting)
    → All (IsWritable n) ps
    → Reads (read_postings n (length ps)) (postings_bytes ps) ps
unfolding read_postings postings_bytes
Reads-postings n [] h = record { at = λ rest. refl }
Reads-postings n (p ∷ ps) h =
    Reads-bind _ (Reads-posting n p h.0) (Reads-last (λ qs. p ∷ qs) (Reads-postings n ps h.1))

-- A table of fewer than 2 ^ 64 postings with words of 32 bits, positive frequencies and local ids
-- below the number `n` of documents is loaded from its file as it was written.
pub load_postings-serialize_postings :
    (n : ℕ) (ps : List SegmentPosting)
    → length ps < 2 ^ 64
    → All (IsWritable n) ps
    → load_postings (serialize_postings ps) (length ps) n ≡ ok ps
unfolding load_postings serialize_postings
load_postings-serialize_postings n ps l h =
    load_all-Reads
      (Reads-bind _ (Reads-header (codes "LTPST001") (length ps) refl l) (Reads-postings n ps h))
