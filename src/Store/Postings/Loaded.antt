-- ===== src/Store/Postings/Loaded.antt =====
-- What the checks of `loadPostings` establish.
use work_smt.Base.{refl, zero, ap, subst, arith, ◌<◌, ◌∷◌, suc, [], length, ◌≡◌, List, ℕ}
use work_smt.Store.Codec.{record_invalid, read_uint32, read_header}
use work_smt.Store.Codec.Chains.{accept-eq-ok, load_all-eq-ok, >>>-eq-ok, give-eq-ok}
use work_smt.Base.Bytes.{codes, Bytes}
use work_smt.Base.Results.{ok}
use work_smt.Store.Terms.Loaded.{IsInside}
use work_smt.Index.Segments.{SegmentPosting}
use work_smt.Store.Postings.{valid_posting, read_posting, load_postings, read_postings}

read_postings-IsInside :
    (n count : ℕ) (ps : List SegmentPosting) (bytes rest : Bytes)
    → read_postings n count bytes ≡ ok (ps, rest)
    → IsInside n ps × (length ps ≡ count)
unfolding read_postings read_posting valid_posting
read_postings-IsInside n zero ps bytes rest h =
    let e = (give-eq-ok [] bytes h).0 in rw (← e) (tt, refl)
read_postings-IsInside n (suc count) ps bytes rest h =
    let (p, m, e, c) = >>>-eq-ok (read_posting n) _ h in
    let (qs, m₂, e₂, c₂) = >>>-eq-ok (read_postings n count) _ c in
    let (l, m₃, e₃, c₃) = >>>-eq-ok read_uint32 _ e in
    let (f, m₄, e₄, c₄) = >>>-eq-ok read_uint32 _ c₃ in
    let (t, same, z) =
      accept-eq-ok _ record_invalid (record { local_id = l; term_frequency = f }) m₄ c₄ in
    let (i, k) = read_postings-IsInside n count qs m m₂ e₂ in
    let (whole, y) = give-eq-ok (p ∷ qs) m₂ c₂ in
    let low : l < n = ground arith in
    subst (λ z. IsInside n z × (length z ≡ suc count)) whole
      ((subst (λ (z : SegmentPosting). z.local_id < n) same low, i), ap suc k)

-- The postings that `loadPostings` has accepted are as many as expected, and all of documents below
-- `n`.
pub load_postings-IsInside :
    (content : Bytes) (count n : ℕ) (ps : List SegmentPosting)
    → load_postings content count n ≡ ok ps
    → IsInside n ps × (length ps ≡ count)
unfolding load_postings
load_postings-IsInside content count n ps h =
    let (u, m, e, c) =
      >>>-eq-ok (read_header (codes "LTPST001") count) _ (load_all-eq-ok _ content h) in
    read_postings-IsInside n count ps m [] c
