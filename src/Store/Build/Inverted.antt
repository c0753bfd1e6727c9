-- ===== src/Store/Build/Inverted.antt =====
-- What the maps of a build hold after the terms of a document are counted and added.
use work_smt.Base.{
  not, sym, ◌&&◌, true, ◌||◌, ◌∙◌, ◌+◌, refl, ap, ap₂, ◌==◌, ◌≡◌, Bool, arith, ◌∷◌, [], ltb, ℕ,
  List,
}
use work_smt.Store.Build.{uint32_max, term_frequency_exceeded, count_terms, add_postings}
use work_smt.Search.Segment.{find_index}
use work_smt.Base.Results.{ensure-eq-ok, ok-injective, ok}
use work_smt.Base.SortedMap.{holds_at-alter, holds_at, alter, IsConnected}
use work_smt.Base.Bytes.{bytes_eq, Bytes}
use work_smt.Search.Query.{contains}
use work_smt.Store.Terms.{string_less}
use work_smt.Collector.Uploader.{or_else}

string_less-IsConnected : IsConnected string_less
unfolding string_less
string_less-IsConnected [] [] a b = refl
string_less-IsConnected [] (y ∷ ys) a b = cc
string_less-IsConnected (x ∷ xs) [] a b = cc
string_less-IsConnected (x ∷ xs) (y ∷ ys) a b =
    let e : x ≡ y = ground arith in
    ap₂ (◌∷◌) e (string_less-IsConnected xs ys (ground arith) (ground arith))

ltb-IsConnected : IsConnected ltb
ltb-IsConnected a b h k = ground arith

-- The index has the document in the list of the word.
abbrev pub lists : Bytes → ℕ → List (Bytes × List (ℕ × ℕ)) → Bool
lists w j inverted = holds_at bytes_eq w (λ ids. holds_at ◌==◌ j (λ n. true) ids) inverted

abbrev pub has_word : Bytes → List (Bytes × ℕ) → Bool
has_word w frequencies = holds_at bytes_eq w (λ n. true) frequencies

pub has_word-count_terms :
    (w : Bytes) (m r : List (Bytes × ℕ)) (ts : List Bytes)
    → count_terms m ts ≡ ok r
    → has_word w r ≡ (contains ts w || has_word w m)
unfolding count_terms contains
has_word-count_terms w m r [] h = ap (has_word w) (sym (ok-injective h))
has_word-count_terms w m r (t ∷ ts) h =
    let (guard, k) =
      ensure-eq-ok (not (or_else 0 (find_index t m) == uint32_max)) term_frequency_exceeded _ h in
    let a =
      holds_at-alter string_less bytes_eq string_less-IsConnected t w (λ old. or_else 0 old + 1)
        (λ n. true) true m refl (λ v. refl) in
    let b = has_word-count_terms w (alter string_less t (λ old. or_else 0 old + 1) m) r ts k in
    ground (arith, a, b)

lists-add_one :
    (w word : Bytes) (j id n : ℕ) (inverted : List (Bytes × List (ℕ × ℕ)))
    → lists w j (alter string_less word (λ old. alter ltb id (λ _. n) (or_else [] old)) inverted)
      ≡ ((bytes_eq word w && id == j) || lists w j inverted)
unfolding or_else
lists-add_one w word j id n inverted =
    let inner : (ids : List (ℕ × ℕ))
        → holds_at ◌==◌ j (λ m. true) (alter ltb id (λ _. n) ids)
          ≡ (id == j || holds_at ◌==◌ j (λ m. true) ids) =
      λ ids.
        holds_at-alter ltb ◌==◌ ltb-IsConnected id j (λ _. n) (λ m. true) true ids refl (λ v. refl)
        ∙ ground arith in
    holds_at-alter string_less bytes_eq string_less-IsConnected word w
      (λ old. alter ltb id (λ _. n) (or_else [] old)) (λ ids. holds_at ◌==◌ j (λ m. true) ids)
      (id == j) inverted (inner [] ∙ ground arith) inner

pub lists-add_postings :
    (w : Bytes) (j id : ℕ) (frequencies : List (Bytes × ℕ)) (inverted : List (Bytes × List (ℕ × ℕ)))
    → lists w j (add_postings id frequencies inverted)
      ≡ ((id == j && has_word w frequencies) || lists w j inverted)
unfolding add_postings
lists-add_postings w j id [] inverted = ground arith
lists-add_postings w j id (e ∷ fs) inverted =
    let a = lists-add_one w e.0 j id e.1 inverted in
    let b =
      lists-add_postings w j id fs
        (alter string_less e.0 (λ old. alter ltb id (λ _. e.1) (or_else [] old)) inverted) in
    ground (arith, a, b)
