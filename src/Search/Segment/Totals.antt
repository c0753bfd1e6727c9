-- ===== src/Search/Segment/Totals.antt =====
-- The sums of the document frequencies, before the rounds of a search, read inside of the tables.
use work_smt.Base.{
  refl, inl, inr, arith, subst, length, get_elem?-inside, Bool-cases, Option-cases, All, some, ◌+◌,
  ◌<◌, ◌≡◌, [], ◌∷◌, ℕ, List,
}
use mathlib.Core.Option.{some-injective}
use work_smt.Base.Bytes.{bytes_eq, Bytes}
use work_smt.Index.Segments.{LoadedSegment}
use work_smt.Search.Segment.{add_frequencies, find_index, global_frequencies}

-- The dictionary of the segment names terms of it.
abbrev pub HasNames : LoadedSegment → Type 0
HasNames g = All (λ e. e.1 < length g.terms) g.term_lookup

pub find_index-inside :
    (n : ℕ) (word : Bytes) (es : List (Bytes × ℕ)) (k : ℕ)
    → All (λ e. e.1 < n) es
    → find_index word es ≡ some k
    → k < n
unfolding find_index
find_index-inside n word [] k h e = cc
find_index-inside n word (x ∷ es) k h e = elim (Bool-cases (bytes_eq x.0 word)) [
  | inl b ↦
      let f : some x.1 ≡ some k = ground arith in subst (λ z. z < n) (some-injective x.1 k f) h.0
  | inr b ↦ find_index-inside n word es k h.1 (ground arith)
]

add_frequencies_return :
    (g : LoadedSegment) (words : List Bytes) (dfs : List ℕ)
    → HasNames g
    → (sums : List ℕ) × (add_frequencies g words dfs ≡ some sums)
unfolding add_frequencies
add_frequencies_return g [] [] s = ([], refl)
add_frequencies_return g [] (df ∷ dfs) s = ([], refl)
add_frequencies_return g (word ∷ words) [] s = ([], refl)
add_frequencies_return g (word ∷ words) (df ∷ dfs) s =
    let (sums, e) = add_frequencies_return g words dfs s in
    elim (Option-cases (find_index word g.term_lookup)) [
      | inl f ↦ (df ∷ sums, rw (add_frequencies, e, f) refl)
      | inr (k, f) ↦
          let (t, at) =
            get_elem?-inside g.terms k
              (find_index-inside (length g.terms) word g.term_lookup k s f) in
          ((df + t.document_frequency) ∷ sums, rw (add_frequencies, e, f, at) refl)
    ]

-- The sums over all segments read inside of the tables.
pub global_frequencies_return :
    (gs : List LoadedSegment) (words : List Bytes) (dfs : List ℕ)
    → All HasNames gs
    → (sums : List ℕ) × (global_frequencies gs words dfs ≡ some sums)
unfolding global_frequencies
global_frequencies_return [] words dfs h = (dfs, refl)
global_frequencies_return (g ∷ gs) words dfs h =
    let (sums, e) = add_frequencies_return g words dfs h.0 in
    let (total, es) = global_frequencies_return gs words sums h.1 in
    (total, rw (global_frequencies, e) es)
