-- ===== src/Store/Terms/Dictionary.antt =====
-- The dictionary of a loaded table leads from each word to the posting list of its term.
use work_smt.Store.Codec.{not_covering, read_header}
use work_smt.Store.Codec.Chains.{accept-eq-ok, load_all-eq-ok, >>>-eq-ok, give-eq-ok}
use work_smt.Store.Terms.Loaded.{
  check_term-IsSoundTable, check_term-add_term, IsInside, IsSoundTable,
}
use work_smt.Base.Bytes.{codes, bytes_eq_refl, bytes_eq_sym, bytes_eq_sound, bytes_eq, Bytes}
use work_smt.Store.Terms.{
  check_term, read_term, no_terms, read_terms, load_terms, valid_term, add_term, posting_range,
  assign, TermTable, string_less,
}
use work_smt.Base.Results.{>>=-eq-ok, ok}
use work_smt.Base.{
  ◌∙◌, All-append, All-imp, zero, Option-cases, suc, ◌<◌, length, inr, ap, sym, refl, get_elem?, [],
  subst, ◌⊎◌, inl, ◌++◌, none, some, arith, is_empty, false, Bool, ◌∷◌, if◌then◌else◌, Bool-cases,
  ℕ, true, ◌||◌, All, ◌≡◌, List,
}
use work_smt.Search.Segment.Totals.{find_index-inside}
use work_smt.Search.Postings.Intersection.{has_id}
use work_smt.Store.Build.Index.{in_index}
use work_smt.Index.Segments.{SegmentTermRecord, SegmentPosting}
use work_smt.Search.Segment.{find_index}

string_less_trans :
    (xs ys zs : Bytes)
    → string_less xs ys ≡ true
    → string_less ys zs ≡ true
    → string_less xs zs ≡ true
unfolding string_less
string_less_trans xs [] zs h k = cc
string_less_trans xs (y ∷ ys) [] h k = cc
string_less_trans [] (y ∷ ys) (z ∷ zs) h k = refl
string_less_trans (x ∷ xs) (y ∷ ys) (z ∷ zs) h k = ground (arith, string_less_trans xs ys zs)

string_less-bytes_eq : (xs ys : Bytes) → string_less xs ys ≡ true → bytes_eq xs ys ≡ false
unfolding string_less
string_less-bytes_eq xs [] h = cc
string_less-bytes_eq [] (y ∷ ys) h = refl
string_less-bytes_eq (x ∷ xs) (y ∷ ys) h = ground (arith, string_less-bytes_eq xs ys)

find_index-assign :
    (w word : Bytes) (k : ℕ) (es : List (Bytes × ℕ))
    → find_index w (assign word k es) ≡ (if bytes_eq word w then some k else find_index w es)
unfolding find_index assign
find_index-assign w word k [] = ground arith
find_index-assign w word k (e ∷ es) = elim (Bool-cases (bytes_eq e.0 word)) [
  | inl b ↦
      let same = bytes_eq_sound e.0 word b in let c = ap (λ z. bytes_eq z w) same in ground arith
  | inr b ↦
      let r = find_index-assign w word k es in
      elim (Bool-cases (bytes_eq e.0 w)) [
        | inr c ↦ ground arith
        | inl c ↦
            let same = bytes_eq_sound e.0 w c in
            let d = ap (λ z. bytes_eq z word) same in
            let sym_eq = bytes_eq_sym word w in ground arith
      ]
]

-- The posting list that the dictionary gives for a word has the document.
abbrev pub dictionary_has : TermTable → List SegmentPosting → Bytes → ℕ → Bool
dictionary_has s postings w i = elim (find_index w s.lookup) [
  | none ↦ false
  | some k ↦ elim (get_elem? s.terms k) [
    | none ↦ false
    | some t ↦ has_id i (posting_range postings t)
  ]
]

-- The word comes before the next term: it is less than the last term, or that term.
abbrev NotAfter : Bytes → SegmentTermRecord → Type 0
NotAfter previous u = (string_less u.term previous || bytes_eq u.term previous) ≡ true

pub record IsDictionary (postings : List SegmentPosting) (s : TermTable) : Type 0 where
  pub leads : (w : Bytes) (i : ℕ) → dictionary_has s postings w i ≡ in_index s.terms postings w i
  pub ordered : All (NotAfter s.previous) s.terms
  pub starts : (is_empty s.previous ≡ false) ⊎ (s.terms ≡ [])

in_index-append :
    (ts us : List SegmentTermRecord) (postings : List SegmentPosting) (w : Bytes) (i : ℕ)
    → in_index (ts ++ us) postings w i ≡ (in_index ts postings w i || in_index us postings w i)
in_index-append [] us postings w i = refl
in_index-append (t ∷ ts) us postings w i =
    let r = in_index-append ts us postings w i in ground arith

-- No term of the table is the word.
abbrev Lacks : Bytes → List SegmentTermRecord → Type 0
Lacks w ts = All (λ u. bytes_eq u.term w ≡ false) ts

in_index-Lacks :
    (ts : List SegmentTermRecord) (postings : List SegmentPosting) (w : Bytes) (i : ℕ)
    → Lacks w ts
    → in_index ts postings w i ≡ false
in_index-Lacks [] postings w i h = refl
in_index-Lacks (t ∷ ts) postings w i h =
    let a = h.0 in let r = in_index-Lacks ts postings w i h.1 in ground arith

before_next :
    (previous word : Bytes) (u : SegmentTermRecord)
    → string_less previous word ≡ true
    → NotAfter previous u
    → (string_less u.term word ≡ true)
before_next previous word u h k = elim (Bool-cases (bytes_eq u.term previous)) [
  | inl e ↦ subst (λ z. string_less z word ≡ true) (sym (bytes_eq_sound u.term previous e)) h
  | inr e ↦ string_less_trans u.term previous word (ground arith) h
]

get_elem?-append_left :
    (ts us : List SegmentTermRecord) (k : ℕ)
    → k < length ts
    → get_elem? (ts ++ us) k ≡ get_elem? ts k
get_elem?-append_left [] us k h = absurd (omega (arith, h))
get_elem?-append_left (t ∷ ts) us zero h = refl
get_elem?-append_left (t ∷ ts) us (suc k) h = get_elem?-append_left ts us k (omega (arith, h))

get_elem?-append_here :
    (ts : List SegmentTermRecord) (t : SegmentTermRecord)
    → get_elem? (ts ++ t ∷ []) (length ts) ≡ some t
get_elem?-append_here [] t = refl
get_elem?-append_here (u ∷ ts) t = get_elem?-append_here ts t

-- The dictionary after a new term has been added, which the table lacked.
leads-add_term :
    (postings : List SegmentPosting) (s : TermTable) (t : SegmentTermRecord) (w : Bytes) (i : ℕ)
    → All (λ e. e.1 < length s.terms) s.lookup
    → Lacks t.term s.terms
    → dictionary_has s postings w i ≡ in_index s.terms postings w i
    → dictionary_has (add_term s t) postings w i ≡ in_index (s.terms ++ t ∷ []) postings w i
unfolding add_term
leads-add_term postings s t w i named lacks h =
    let a = find_index-assign w t.term (length s.terms) s.lookup in
    let b = in_index-append s.terms (t ∷ []) postings w i in
    elim (Bool-cases (bytes_eq t.term w)) [
      | inl e ↦
          let same = bytes_eq_sound t.term w e in
          let none_before =
            in_index-Lacks s.terms postings w i (subst (λ z. Lacks z s.terms) same lacks) in
          let here = get_elem?-append_here s.terms t in
          let look : find_index w (assign t.term (length s.terms) s.lookup)
              ≡ some (length s.terms) =
            ground arith in
          rw (dictionary_has, look, here, b, none_before, e) (ground arith)
      | inr e ↦
          let look : find_index w (assign t.term (length s.terms) s.lookup)
              ≡ find_index w s.lookup =
            ground arith in
          elim (Option-cases (find_index w s.lookup)) [
            | inl z ↦
                let q : in_index s.terms postings w i ≡ false =
                  sym h ∙ rw (dictionary_has, z) refl in
                rw (dictionary_has, look, z, b, q, e) refl
            | inr (k, z) ↦
                let low = find_index-inside (length s.terms) w s.lookup k named z in
                let there = get_elem?-append_left s.terms (t ∷ []) k low in
                let q = sym (rw (dictionary_has, z) at h) in
                rw (dictionary_has, look, z, there, b, e, q) (ground arith)
          ]
    ]

add_term-IsDictionary :
    (postings : List SegmentPosting) (n : ℕ) (s : TermTable) (t : SegmentTermRecord)
    → IsSoundTable postings n s
    → valid_term postings s.expected_begin s.previous t ≡ true
    → IsDictionary postings s
    → IsDictionary postings (add_term s t)
unfolding add_term valid_term
add_term-IsDictionary postings n s t sound v d =
    let filled : is_empty t.term ≡ false = ground arith in
    let before : All (λ u. string_less u.term t.term ≡ true) s.terms = elim d.starts [
      | inl e ↦
          let less_next : string_less s.previous t.term ≡ true = ground arith in
          All-imp (NotAfter s.previous) (λ u. string_less u.term t.term ≡ true) s.terms
            (λ u k. before_next s.previous t.term u less_next k) d.ordered
      | inr e ↦ rw e tt
    ] in
    record {
      leads = λ w i.
          leads-add_term postings s t w i sound.named
            (All-imp (λ u. string_less u.term t.term ≡ true) (λ u. bytes_eq u.term t.term ≡ false)
              s.terms (λ u k. string_less-bytes_eq u.term t.term k) before)
            (d.leads w i);
      ordered =
          All-append (NotAfter t.term) s.terms (t ∷ [])
            (All-imp (λ u. string_less u.term t.term ≡ true) (NotAfter t.term) s.terms
              (λ u k. ground arith) before)
            (let e = bytes_eq_refl t.term in ground arith, tt);
      starts = inl filled;
    }

read_terms-IsDictionary :
    (postings : List SegmentPosting) (n count : ℕ) (s r : TermTable) (bytes rest : Bytes)
    → IsInside n postings
    → read_terms postings count s bytes ≡ ok (r, rest)
    → IsSoundTable postings n s
    → IsDictionary postings s
    → IsDictionary postings r
unfolding read_terms
read_terms-IsDictionary postings n zero s r bytes rest i h k d =
    subst (IsDictionary postings) (give-eq-ok s bytes h).0 d
read_terms-IsDictionary postings n (suc count) s r bytes rest i h k d =
    let (t, middle, e, c) = >>>-eq-ok read_term _ h in
    let (next, e₂, c₂) = >>=-eq-ok (check_term postings s t) _ c in
    let (v, u, same) = check_term-add_term postings s next t e₂ in
    read_terms-IsDictionary postings n count next r middle rest i c₂
      (check_term-IsSoundTable postings n s next t i e₂ k)
      (subst (IsDictionary postings) same (add_term-IsDictionary postings n s t k v d))

pub load_terms-IsDictionary :
    (content : Bytes) (count n : ℕ) (postings : List SegmentPosting) (r : TermTable)
    → IsInside n postings
    → load_terms content count postings ≡ ok r
    → IsDictionary postings r
unfolding load_terms no_terms find_index
load_terms-IsDictionary content count n postings r i h =
    let (u, m, e, c) =
      >>>-eq-ok (read_header (codes "LTTRM001") count) _ (load_all-eq-ok _ content h) in
    let (s, m₂, e₂, c₂) = >>>-eq-ok (read_terms postings count no_terms) _ c in
    let (t, same, z) = accept-eq-ok _ not_covering s m₂ c₂ in
    subst (IsDictionary postings) same (
      read_terms-IsDictionary postings n count no_terms s m m₂ i e₂
        (record { posted = tt; named = tt })
        (record { leads = λ w j. refl; ordered = tt; starts = inr refl }))
