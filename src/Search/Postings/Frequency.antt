-- ===== src/Search/Postings/Frequency.antt =====
-- The binary search of `termFrequency` in a range of postings with ascending local ids.
use work_smt.Base.{
  get_elem?-inside, ◌∙◌, sym, leb→le, ltb→lt, All, [], ◌∷◌, refl, Option-cases, ◌==◌, if◌then◌else◌,
  leb, ◌/◌, ◌-◌, inl, ap, inr, ltb, zero, Bool-cases, suc, arith, ◌+◌, some, length, ◌≡◌, ◌<◌, ◌≤◌,
  get_elem?, ℕ, List,
}
use work_smt.Index.Segments.{SegmentTermRecord, LoadedSegment, SegmentPosting}
use mathlib.Core.Option.{some-injective}
use work_smt.Search.Postings.{frequencies, term_frequency, lower_bound}

-- The positions from `b` to below `e` of the table are there and ascend by local id.
pub record IsSortedRange (ps : List SegmentPosting) (b e : ℕ) : Type 0 where
  pub inside : e ≤ length ps
  pub ascends :
      (i j : ℕ) (p q : SegmentPosting)
      → b ≤ i
      → i < j
      → j < e
      → get_elem? ps i ≡ some p
      → get_elem? ps j ≡ some q
      → p.local_id < q.local_id

ids_ascend :
    (ps : List SegmentPosting) (b e i j : ℕ) (p q : SegmentPosting)
    → IsSortedRange ps b e
    → b ≤ i
    → i ≤ j
    → j < e
    → get_elem? ps i ≡ some p
    → get_elem? ps j ≡ some q
    → p.local_id ≤ q.local_id
ids_ascend ps b e i j p q s bi ij je at_i at_j = elim (Bool-cases (i == j)) [
  | inl same ↦
      let eq : i ≡ j = ground arith in
      let pq = some-injective p q (sym at_i ∙ ap (get_elem? ps) eq ∙ at_j) in
      omega (arith, ap (λ x. x.local_id) pq)
  | inr other ↦ omega (arith, s.ascends i j p q bi (ground arith) je at_i at_j)
]

after_place :
    (ps : List SegmentPosting) (b e m t : ℕ) (p q : SegmentPosting)
    → IsSortedRange ps b e
    → m < e
    → b ≤ t
    → get_elem? ps m ≡ some p
    → get_elem? ps t ≡ some q
    → p.local_id < q.local_id
    → m < t
after_place ps b e m t p q s me bt at_m at_t h = elim (Bool-cases (leb t m)) [
  | inl l ↦ omega (arith, ids_ascend ps b e t m q p s bt (leb→le t m l) me at_t at_m)
  | inr l ↦ ground arith
]

before_place :
    (ps : List SegmentPosting) (b e m t : ℕ) (p q : SegmentPosting)
    → IsSortedRange ps b e
    → t < e
    → b ≤ m
    → get_elem? ps m ≡ some p
    → get_elem? ps t ≡ some q
    → q.local_id ≤ p.local_id
    → t ≤ m
before_place ps b e m t p q s te bm at_m at_t h = elim (Bool-cases (ltb m t)) [
  | inl l ↦ omega (arith, s.ascends m t p q bm (ltb→lt m t l) te at_m at_t)
  | inr l ↦ ground arith
]

lower_bound-finds :
    (fuel : ℕ) (ps : List SegmentPosting) (b e left right t : ℕ) (q : SegmentPosting)
    → IsSortedRange ps b e
    → get_elem? ps t ≡ some q
    → t < e
    → b ≤ left
    → right ≤ e
    → left ≤ t
    → t ≤ right
    → right < left + fuel
    → lower_bound fuel ps left right q.local_id ≡ some t
unfolding lower_bound
lower_bound-finds zero ps b e left right t q s at te bl re lt tr f = absurd (omega arith)
lower_bound-finds (suc fuel) ps b e left right t q s at te bl re lt tr f =
    elim (Bool-cases (ltb left right)) [
      | inr l ↦ rw (lower_bound, l) (ap some (ground arith))
      | inl l ↦
          let middle = left + (right - left) / 2 in
          let low : left ≤ middle = omega arith in
          let high : middle < right = ground arith in
          let (p, m) = get_elem?-inside ps middle (omega (arith, s.inside)) in
          elim (Bool-cases (ltb p.local_id q.local_id)) [
            | inl g ↦
                let after : middle < t =
                  after_place ps b e middle t p q s (omega (arith, high)) (omega arith) m at
                    (ground arith) in
                rw (lower_bound, l, m, g)
                  (lower_bound-finds fuel ps b e (suc middle) right t q s at te (omega arith) re
                    after tr (omega arith))
            | inr g ↦
                let before : t ≤ middle =
                  before_place ps b e middle t p q s te (omega (arith, low)) m at (ground arith) in
                rw (lower_bound, l, m, g)
                  (lower_bound-finds fuel ps b e left middle t q s at te bl (omega arith) lt before
                    (omega arith))
          ]
    ]

-- When a term's range of postings is inside of the table and ascends by local id, and position `t`
-- of the range holds the posting `q`, then `termFrequency` of the document of `q` terminates without
-- a read outside of the table, and returns the frequency in `q`.
pub term_frequency-finds :
    (g : LoadedSegment) (term : SegmentTermRecord) (t : ℕ) (q : SegmentPosting)
    → IsSortedRange g.postings term.posting_begin (term.posting_begin + term.posting_count)
    → get_elem? g.postings t ≡ some q
    → term.posting_begin ≤ t
    → t < term.posting_begin + term.posting_count
    → term_frequency g term q.local_id ≡ some q.term_frequency
unfolding term_frequency
term_frequency-finds g term t q s at low high =
    let e = term.posting_begin + term.posting_count in
    let found =
      lower_bound-finds (suc term.posting_count) g.postings term.posting_begin e term.posting_begin
        e t q s at high (omega arith) (omega arith) low (omega arith) (omega arith) in
    rw (term_frequency, found, at) (ap some (ground arith))

-- In a range inside of the table the loop ends, whatever the ids are.
lower_bound_ends :
    (fuel : ℕ) (ps : List SegmentPosting) (left right local_id : ℕ)
    → right ≤ length ps
    → left ≤ right
    → right < left + fuel
    → (k : ℕ) × (lower_bound fuel ps left right local_id ≡ some k)
unfolding lower_bound
lower_bound_ends zero ps left right local_id inside ordered f = (left, absurd (omega arith))
lower_bound_ends (suc fuel) ps left right local_id inside ordered f =
    elim (Bool-cases (ltb left right)) [
      | inr l ↦ (left, rw (lower_bound, l) refl)
      | inl l ↦
          let middle = left + (right - left) / 2 in
          let less : left < right = ltb→lt left right l in
          let (p, m) = get_elem?-inside ps middle (omega (arith, inside, less)) in
          elim (Bool-cases (ltb p.local_id local_id)) [
            | inl g ↦
                let (k, e) =
                  lower_bound_ends fuel ps (suc middle) right local_id inside (omega (arith, less))
                    (omega (arith, less, f)) in
                (k, rw (lower_bound, l, m, g) e)
            | inr g ↦
                let (k, e) =
                  lower_bound_ends fuel ps left middle local_id (omega (arith, less, inside))
                    (omega (arith, less)) (omega (arith, less, f)) in
                (k, rw (lower_bound, l, m, g) e)
          ]
    ]

term_frequency_returns :
    (g : LoadedSegment) (t : SegmentTermRecord) (local_id : ℕ)
    → t.posting_begin + t.posting_count ≤ length g.postings
    → (n : ℕ) × (term_frequency g t local_id ≡ some n)
unfolding term_frequency
term_frequency_returns g t local_id inside =
    let (left, e) =
      lower_bound_ends (suc t.posting_count) g.postings t.posting_begin
        (t.posting_begin + t.posting_count) local_id inside (omega arith) (omega arith) in
    elim (Option-cases (get_elem? g.postings left)) [
      | inl out ↦ (0, rw (term_frequency, e, out) refl)
      | inr (p, at) ↦
          (if p.local_id == local_id then p.term_frequency else 0, rw (term_frequency, e, at) refl)
    ]

-- The frequencies of terms whose ranges are inside of the table are read without leaving it.
pub frequencies_return :
    (g : LoadedSegment) (ts : List SegmentTermRecord) (local_id : ℕ)
    → All (λ t. t.posting_begin + t.posting_count ≤ length g.postings) ts
    → (ns : List ℕ) × (frequencies g ts local_id ≡ some ns)
unfolding frequencies
frequencies_return g [] local_id h = ([], refl)
frequencies_return g (t ∷ ts) local_id h =
    let (n, e) = term_frequency_returns g t local_id h.0 in
    let (ns, es) = frequencies_return g ts local_id h.1 in (n ∷ ns, rw (frequencies, e, es) refl)
