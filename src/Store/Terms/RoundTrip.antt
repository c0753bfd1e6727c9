-- ===== src/Store/Terms/RoundTrip.antt =====
-- Terms are loaded as they were written.
use work_smt.Base.{
  append_assoc, refl, arith, ◌==◌, suc, append-nil, ◌∙◌, sym, [], subst, ap, ◌∷◌, ◌++◌, All, length,
  ◌≡◌, ℕ, ◌^◌, ◌<◌, List,
}
use work_smt.Store.Terms.Loaded.{check_term-add_term}
use work_smt.Store.Codec.{not_covering, give, append_string, StoreError, append_records}
use work_smt.Store.Codec.Reads.{
  Reads-last, Reads-accept, Reads-uint64, Reads-uint32, Reads-string, append_records-eq-ok,
  Reads-header, Reads-end, Reads-bind, load_all-Reads, Reads,
}
use work_smt.Base.Bytes.{codes, Bytes}
use work_smt.Base.Results.{ok-injective, ◌>>=◌, >>=-eq-ok, ok, Result}
use work_smt.Store.Terms.{
  no_terms, TermTable, serialize_terms, read_term, add_term, term_bytes, load_terms, read_terms,
  check_term,
}
use work_smt.Index.Segments.{SegmentPosting, SegmentTermRecord}

-- The checks of the loader on all the terms, from the table `s` on.
abbrev pub check_all :
    List SegmentPosting → TermTable → List SegmentTermRecord → Result StoreError TermTable
check_all postings s [] = ok s
check_all postings s (t ∷ ts) = check_term postings s t >>= λ next. check_all postings next ts

abbrev pub HasWidths : SegmentTermRecord → Type 0
HasWidths t =
    (t.document_frequency < 2 ^ 32) × (t.posting_begin < 2 ^ 64) × (t.posting_count < 2 ^ 32)

Reads-term :
    (t : SegmentTermRecord) (bytes : Bytes)
    → term_bytes t ≡ ok bytes
    → HasWidths t
    → Reads read_term bytes t
unfolding term_bytes read_term
Reads-term t bytes h (d, b, c) =
    let (text, e, k) = >>=-eq-ok (append_string t.term) _ h in
    subst (λ z. Reads read_term z t) (ok-injective k)
      (Reads-bind _ (Reads-string t.term text e) (
        Reads-bind _ (Reads-uint32 t.document_frequency d) (
          Reads-bind _ (Reads-uint64 t.posting_begin b)
            (Reads-last (λ n. record t { posting_count = n }) (Reads-uint32 t.posting_count c)))))

-- The checks of one term between its reading and the readings after it.
Reads-checked :
    (postings : List SegmentPosting) (s next : TermTable) (t : SegmentTermRecord) (n : ℕ)
    (bytes : Bytes) (r : TermTable)
    → check_term postings s t ≡ ok next
    → Reads (read_terms postings n next) bytes r
    → Reads (λ rest. check_term postings s t >>= λ u. read_terms postings n u rest) bytes r
Reads-checked postings s next t n bytes r e h = record { at = λ rest. rw e (h.at rest) }

Reads-terms :
    (postings : List SegmentPosting) (s r : TermTable) (ts : List SegmentTermRecord) (bytes : Bytes)
    → append_records term_bytes ts ≡ ok bytes
    → All HasWidths ts
    → check_all postings s ts ≡ ok r
    → Reads (read_terms postings (length ts) s) bytes r
unfolding read_terms
Reads-terms postings s r [] bytes h w c =
    subst (Reads (give s) bytes) (ok-injective c) (Reads-end _ h)
Reads-terms postings s r (t ∷ ts) bytes h (u, w) c =
    let (x, y, e, e₂, k) = append_records-eq-ok term_bytes t ts h in
    let (next, e₃, c₂) = >>=-eq-ok (check_term postings s t) _ c in
    subst (λ z. Reads (read_terms postings (suc (length ts)) s) z r) k
      (Reads-bind _ (Reads-term t x e u) (
        Reads-checked postings s next t (length ts) y r e₃
          (Reads-terms postings next r ts y e₂ w c₂)))

check_all-terms :
    (postings : List SegmentPosting) (s r : TermTable) (ts : List SegmentTermRecord)
    → check_all postings s ts ≡ ok r
    → r.terms ≡ s.terms ++ ts
unfolding add_term
check_all-terms postings s r [] c =
    ap (λ x. x.terms) (sym (ok-injective c)) ∙ sym (append-nil s.terms)
check_all-terms postings s r (t ∷ ts) c =
    let (next, e, c₂) = >>=-eq-ok (check_term postings s t) _ c in
    let (v, u, a) = check_term-add_term postings s next t e in
    check_all-terms postings next r ts c₂
    ∙ ap (λ x. x.terms ++ ts) (sym a)
    ∙ append_assoc s.terms (t ∷ []) ts

-- When the terms of a segment can be written, have words of their widths, pass the checks of the
-- loader one after the other, and cover all the postings, then the loader returns these terms, with
-- the dictionary of the checks, from what was written.
pub load_terms-serialize_terms :
    (postings : List SegmentPosting) (ts : List SegmentTermRecord) (r : TermTable) (content : Bytes)
    → length ts < 2 ^ 64
    → All HasWidths ts
    → check_all postings no_terms ts ≡ ok r
    → r.expected_begin ≡ length postings
    → serialize_terms ts ≡ ok content
    → (load_terms content (length ts) postings ≡ ok r) × (r.terms ≡ ts)
unfolding load_terms serialize_terms no_terms
load_terms-serialize_terms postings ts r content l w c b h =
    let (records, e, k) = >>=-eq-ok (append_records term_bytes ts) _ h in
    (
      subst (λ z. load_terms z (length ts) postings ≡ ok r) (ok-injective k)
          (load_all-Reads (
            Reads-bind _ (Reads-header (codes "LTTRM001") (length ts) refl l) (
              Reads-accept (λ s. s.expected_begin == length postings) not_covering (λ s. s)
                (Reads-terms postings no_terms r ts records e w c) (ground arith)))),
      check_all-terms postings no_terms r ts c,
    )
