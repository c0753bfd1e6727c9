-- ===== src/Store/Terms/Loaded.antt =====
-- What the checks of `loadTerms` establish: the posting lists and the dictionary that a search uses.
use work_smt.Base.Results.{ok-injective, Result, >>=-eq-ok, ok}
use work_smt.Store.Codec.{not_covering, StoreError, read_header}
use work_smt.Base.{
  some, All-imp, All-append, zero, length-append, inr, ◌+◌, inl, [], All-drop, ◌++◌, arith, suc,
  Bool-cases, subst, All-take, length, All-map, ◌∷◌, true, ◌<◌, ◌≤◌, All, ◌≡◌, ℕ, List,
}
use work_smt.Store.Codec.Chains.{accept-eq-ok, load_all-eq-ok, give-eq-ok, >>>-eq-ok}
use work_smt.Store.Terms.{
  read_term, valid_term, TermTable, no_terms, load_terms, increasing, increasing_after, read_terms,
  posting_range, check_term, add_term, assign,
}
use work_smt.Base.Bytes.{codes, bytes_eq, Bytes}
use work_smt.Search.Postings.Intersection.{Ascending}
use work_smt.Search.Postings.{read_local_ids}
use work_smt.Search.Segment.Selection.{read_local_ids-inside}
use work_smt.Index.Segments.{SegmentTermRecord, SegmentPosting}

increasing_after-Ascending :
    (p : ℕ) (ids : List ℕ) → increasing_after p ids ≡ true → Ascending (suc p) ids
unfolding increasing_after
increasing_after-Ascending p [] h = tt
increasing_after-Ascending p (x ∷ xs) h =
    (ground arith, increasing_after-Ascending x xs (ground arith))

increasing-Ascending : (ids : List ℕ) → increasing ids ≡ true → Ascending 0 ids
unfolding increasing
increasing-Ascending [] h = tt
increasing-Ascending (x ∷ xs) h = (omega arith, increasing_after-Ascending x xs h)

-- The posting list of the term is inside of the table and ascends over the documents below `n`.
pub record IsPostedIn (postings : List SegmentPosting) (n : ℕ) (t : SegmentTermRecord)
    : Type 0 where
  pub in_table : t.posting_begin + t.posting_count ≤ length postings
  pub ascends : Ascending 0 (posting_range postings t)
  pub inside : All (λ i. i < n) (posting_range postings t)

pub record IsSoundTable (postings : List SegmentPosting) (n : ℕ) (s : TermTable) : Type 0 where
  pub posted : All (IsPostedIn postings n) s.terms
  pub named : All (λ e. e.1 < length s.terms) s.lookup

abbrev pub IsInside : ℕ → List SegmentPosting → Type 0
IsInside n postings = All (λ p. p.local_id < n) postings

posting_range-inside :
    (postings : List SegmentPosting) (n : ℕ) (t : SegmentTermRecord)
    → IsInside n postings
    → All (λ i. i < n) (posting_range postings t)
unfolding posting_range
posting_range-inside postings n t h =
    All-map (λ i. i < n) (λ p. p.local_id) _
      (All-take (λ p. p.local_id < n) t.posting_count _
        (All-drop (λ p. p.local_id < n) t.posting_begin postings h))

All-assign :
    (n k : ℕ) (word : Bytes) (es : List (Bytes × ℕ))
    → k < n
    → All (λ e. e.1 < n) es
    → All (λ e. e.1 < n) (assign word k es)
unfolding assign
All-assign n k word [] l h = (l, tt)
All-assign n k word (e ∷ es) l h = elim (Bool-cases (bytes_eq e.0 word)) [
  | inl b ↦ rw (assign, b) (l, h.1)
  | inr b ↦ rw (assign, b) (h.0, All-assign n k word es l h.1)
]

add_term-IsSoundTable :
    (postings : List SegmentPosting) (n : ℕ) (s : TermTable) (t : SegmentTermRecord)
    → IsPostedIn postings n t
    → IsSoundTable postings n s
    → IsSoundTable postings n (add_term s t)
unfolding add_term
add_term-IsSoundTable postings n s t p h =
    let l : length (s.terms ++ t ∷ []) ≡ length s.terms + 1 = length-append s.terms (t ∷ []) in
    record {
      posted = All-append (IsPostedIn postings n) s.terms (t ∷ []) h.posted (p, tt);
      named = rw l (
          All-assign (length s.terms + 1) (length s.terms) t.term s.lookup (omega arith) (
            All-imp (λ e. e.1 < length s.terms) (λ e. e.1 < length s.terms + 1) s.lookup
              (λ e b. omega (arith, b)) h.named));
    }

-- The checks of the range of a term.
pub valid_term-in_table :
    (postings : List SegmentPosting) (begin : ℕ) (previous : Bytes) (t : SegmentTermRecord)
    → valid_term postings begin previous t ≡ true
    → t.posting_begin + t.posting_count ≤ length postings
unfolding valid_term
valid_term-in_table postings begin previous t h = ground arith

-- A round whose checks of the range have passed reads the ids in it.
pub read_local_ids-valid :
    (postings : List SegmentPosting) (begin : ℕ) (previous : Bytes) (t : SegmentTermRecord)
    → valid_term postings begin previous t ≡ true
    → read_local_ids postings t.posting_begin t.posting_count ≡ some (posting_range postings t)
unfolding posting_range
read_local_ids-valid postings begin previous t v =
    read_local_ids-inside postings t.posting_begin t.posting_count
      (valid_term-in_table postings begin previous t v)

-- A round that does not throw has passed its checks, and adds the term.
pub check_term-add_term :
    (postings : List SegmentPosting) (s next : TermTable) (t : SegmentTermRecord)
    → check_term postings s t ≡ ok next
    → (valid_term postings s.expected_begin s.previous t ≡ true)
      × (increasing (posting_range postings t) ≡ true)
      × (add_term s t ≡ next)
unfolding check_term
check_term-add_term postings s next t h =
    elim (Bool-cases (valid_term postings s.expected_begin s.previous t)) [
      | inr v ↦ ground arith
      | inl v ↦
          let reads = read_local_ids-valid postings s.expected_begin s.previous t v in
          elim (Bool-cases (increasing (posting_range postings t))) [
            | inr u ↦ ground arith
            | inl u ↦
                let e : ◌≡◌ {A = Result StoreError TermTable} (ok (add_term s t)) (ok next) =
                  ground arith in
                (v, u, ok-injective e)
          ]
    ]

pub check_term-IsSoundTable :
    (postings : List SegmentPosting) (n : ℕ) (s next : TermTable) (t : SegmentTermRecord)
    → IsInside n postings
    → check_term postings s t ≡ ok next
    → IsSoundTable postings n s
    → IsSoundTable postings n next
check_term-IsSoundTable postings n s next t i h k =
    let (v, u, e) = check_term-add_term postings s next t h in
    subst (IsSoundTable postings n) e (
      add_term-IsSoundTable postings n s t
        (record {
          in_table = valid_term-in_table postings s.expected_begin s.previous t v;
          ascends = increasing-Ascending (posting_range postings t) u;
          inside = posting_range-inside postings n t i;
        })
        k)

read_terms-IsSoundTable :
    (postings : List SegmentPosting) (n count : ℕ) (s r : TermTable) (bytes rest : Bytes)
    → IsInside n postings
    → read_terms postings count s bytes ≡ ok (r, rest)
    → IsSoundTable postings n s
    → IsSoundTable postings n r
unfolding read_terms
read_terms-IsSoundTable postings n zero s r bytes rest i h k =
    subst (IsSoundTable postings n) (give-eq-ok s bytes h).0 k
read_terms-IsSoundTable postings n (suc count) s r bytes rest i h k =
    let (t, middle, e, c) = >>>-eq-ok read_term _ h in
    let (next, e₂, c₂) = >>=-eq-ok (check_term postings s t) _ c in
    read_terms-IsSoundTable postings n count next r middle rest i c₂
      (check_term-IsSoundTable postings n s next t i e₂ k)

-- The table that `loadTerms` has accepted for postings of the documents below `n`.
pub load_terms-IsSoundTable :
    (content : Bytes) (count n : ℕ) (postings : List SegmentPosting) (r : TermTable)
    → IsInside n postings
    → load_terms content count postings ≡ ok r
    → IsSoundTable postings n r
unfolding load_terms no_terms
load_terms-IsSoundTable content count n postings r i h =
    let (u, m, e, c) =
      >>>-eq-ok (read_header (codes "LTTRM001") count) _ (load_all-eq-ok _ content h) in
    let (s, m₂, e₂, c₂) = >>>-eq-ok (read_terms postings count no_terms) _ c in
    let (t, same, z) = accept-eq-ok _ not_covering s m₂ c₂ in
    subst (IsSoundTable postings n) same (
      read_terms-IsSoundTable postings n count no_terms s m m₂ i e₂
        (record { posted = tt; named = tt }))
