-- ===== src/Search/Segment/Selection.antt =====
-- Which local ids are candidates: those in the posting list of each of the terms.
use work_smt.Base.{
  ◌≤◌, take, drop, map, some, inr, refl, inl, false, zero, ◌+◌, Option, ◌==◌, ap, arith, [], length,
  true, ◌<◌, ltb, ◌∙◌, ◌&&◌, Bool-cases, leb, All, ◌≡◌, is_empty, suc, Bool, ◌∷◌, List, ℕ,
}
use work_smt.Search.Postings.Intersection.{
  Ascending-set_intersection, has_id-set_intersection, has_id, Ascending,
}
use work_smt.Search.Postings.{
  set_intersection, read_local_ids, posting_ids, insert_term, sort_terms, local_range, narrow,
  candidates,
}
use work_smt.Index.Segments.{SegmentPosting, SegmentTermRecord, LoadedSegment}

-- The local ids in the part of the posting table that the term names.
abbrev pub listed : LoadedSegment → SegmentTermRecord → List ℕ
listed g t = map (λ p. p.local_id) (take t.posting_count (drop t.posting_begin g.postings))

-- The id is in the posting list of every one of the terms.
abbrev pub in_all : LoadedSegment → ℕ → List SegmentTermRecord → Bool
in_all g i [] = true
in_all g i (t ∷ ts) = has_id i (listed g t) && in_all g i ts

-- The posting list of a term is inside of the table and ascends, and its local ids are those of
-- documents.
pub record IsPosted (g : LoadedSegment) (t : SegmentTermRecord) : Type 0 where
  pub in_table : t.posting_begin + t.posting_count ≤ length g.postings
  pub ascends : Ascending 0 (listed g t)
  pub inside : All (λ i. i < length g.documents) (listed g t)

read_local_ids-suc :
    (p : SegmentPosting) (ps : List SegmentPosting) (place n : ℕ)
    → read_local_ids (p ∷ ps) (suc place) n ≡ read_local_ids ps place n
unfolding read_local_ids
read_local_ids-suc p ps place zero = refl
read_local_ids-suc p ps place (suc n) = ground (arith, read_local_ids-suc p ps (suc place) n)

-- Reads inside of the table give the ids in the part of it.
pub read_local_ids-inside :
    (ps : List SegmentPosting) (place n : ℕ)
    → place + n ≤ length ps
    → read_local_ids ps place n ≡ some (map (λ p. p.local_id) (take n (drop place ps)))
unfolding read_local_ids
read_local_ids-inside ps zero zero h = refl
read_local_ids-inside [] zero (suc n) h = absurd (omega arith)
read_local_ids-inside (p ∷ ps) zero (suc n) h =
    let e = read_local_ids-suc p ps 0 n ∙ read_local_ids-inside ps 0 n (omega (arith, h)) in
    rw (read_local_ids, e) refl
read_local_ids-inside [] (suc place) zero h = absurd (omega arith)
read_local_ids-inside [] (suc place) (suc n) h = absurd (omega arith)
read_local_ids-inside (p ∷ ps) (suc place) zero h = refl
read_local_ids-inside (p ∷ ps) (suc place) (suc n) h =
    read_local_ids-suc p ps place (suc n)
    ∙ read_local_ids-inside ps place (suc n) (omega (arith, h))

posting_ids-listed :
    (g : LoadedSegment) (t : SegmentTermRecord) → IsPosted g t → posting_ids g t ≡ some (listed g t)
unfolding posting_ids
posting_ids-listed g t h =
    read_local_ids-inside g.postings t.posting_begin t.posting_count h.in_table

in_all-insert_term :
    (g : LoadedSegment) (i : ℕ) (t : SegmentTermRecord) (ts : List SegmentTermRecord)
    → in_all g i (insert_term t ts) ≡ (has_id i (listed g t) && in_all g i ts)
unfolding insert_term
in_all-insert_term g i t [] = refl
in_all-insert_term g i t (u ∷ us) =
    let r = in_all-insert_term g i t us in
    elim (Bool-cases (ltb u.document_frequency t.document_frequency)) [
      | inl e ↦ ground arith
      | inr e ↦ ground arith
    ]

pub in_all-sort_terms :
    (g : LoadedSegment) (i : ℕ) (ts : List SegmentTermRecord)
    → in_all g i (sort_terms ts) ≡ in_all g i ts
unfolding sort_terms
in_all-sort_terms g i [] = refl
in_all-sort_terms g i (t ∷ ts) =
    in_all-insert_term g i t (sort_terms ts)
    ∙ ap (has_id i (listed g t) &&◌) (in_all-sort_terms g i ts)

All-insert_term :
    (P : SegmentTermRecord → Type 0) (t : SegmentTermRecord) (ts : List SegmentTermRecord)
    → P t
    → All P ts
    → All P (insert_term t ts)
unfolding insert_term
All-insert_term P t [] h k = (h, tt)
All-insert_term P t (u ∷ us) h k =
    elim (Bool-cases (ltb u.document_frequency t.document_frequency)) [
      | inl e ↦ rw (insert_term, e) (k.0, All-insert_term P t us h k.1)
      | inr e ↦ rw (insert_term, e) (h, k)
    ]

pub All-sort_terms :
    (P : SegmentTermRecord → Type 0) (ts : List SegmentTermRecord)
    → All P ts
    → All P (sort_terms ts)
unfolding sort_terms
All-sort_terms P [] h = tt
All-sort_terms P (t ∷ ts) h = All-insert_term P t (sort_terms ts) h.0 (All-sort_terms P ts h.1)

has_id-empty : (i : ℕ) (xs : List ℕ) → is_empty xs ≡ true → has_id i xs ≡ false
has_id-empty i [] h = refl
has_id-empty i (x ∷ xs) h = cc

-- The ids are read inside of the table, ascend, and are those for which the test holds.
pub record Reads (test : ℕ → Bool) (answer : Option (List ℕ)) : Type 0 where
  pub ids : List ℕ
  pub answers : answer ≡ some ids
  pub ascends : Ascending 0 ids
  pub has : (i : ℕ) → has_id i ids ≡ test i

narrow-Reads :
    (g : LoadedSegment) (xs : List ℕ) (ts : List SegmentTermRecord)
    → Ascending 0 xs
    → All (IsPosted g) ts
    → Reads (λ i. has_id i xs && in_all g i ts) (narrow g xs ts)
unfolding narrow
narrow-Reads g xs [] h k = record { ids = xs; answers = refl; ascends = h; has = λ i. ground arith }
narrow-Reads g xs (t ∷ ts) h k =
    let both = set_intersection xs (listed g t) in
    let e = posting_ids-listed g t k.0 in
    let a = Ascending-set_intersection 0 xs (listed g t) h in
    let c = has_id-set_intersection 0 0 xs (listed g t) h k.0.ascends in
    elim (Bool-cases (is_empty both)) [
      | inl z ↦ record {
        ids = both;
        answers = rw (narrow, e, z) refl;
        ascends = a;
        has = λ i. let n = has_id-empty i both z in let d = c i in ground arith;
      }
      | inr z ↦
          let r = narrow-Reads g both ts a k.1 in
          record {
            ids = r.ids;
            answers = rw (narrow, e, z) r.answers;
            ascends = r.ascends;
            has = λ i. let n = r.has i in let d = c i in ground arith;
          }
    ]

Ascending-local_range : (low n : ℕ) → Ascending low (local_range low n)
unfolding local_range
Ascending-local_range low zero = tt
Ascending-local_range low (suc n) = (omega arith, Ascending-local_range (suc low) n)

has_id-local_range : (i low n : ℕ) → has_id i (local_range low n) ≡ (leb low i && ltb i (low + n))
unfolding local_range
has_id-local_range i low zero = ground arith
has_id-local_range i low (suc n) = ground (arith, has_id-local_range i (suc low) n)

has_id-inside : (i n : ℕ) (xs : List ℕ) → All (λ j. j < n) xs → has_id i xs ≡ true → i < n
has_id-inside i n [] h k = cc
has_id-inside i n (x ∷ xs) h k = elim (Bool-cases (x == i)) [
  | inl e ↦ let l = h.0 in ground arith
  | inr e ↦ has_id-inside i n xs h.1 (ground arith)
]

-- The candidates are the documents in the posting list of each of the terms.
pub candidates-Reads :
    (g : LoadedSegment) (ts : List SegmentTermRecord)
    → All (IsPosted g) ts
    → Reads (λ i. ltb i (length g.documents) && in_all g i ts) (candidates g ts)
unfolding candidates
candidates-Reads g [] h = record {
  ids = local_range 0 (length g.documents);
  answers = refl;
  ascends = Ascending-local_range 0 (length g.documents);
  has = λ i. has_id-local_range i 0 (length g.documents) ∙ ground arith;
}
candidates-Reads g (t ∷ ts) h =
    let r = narrow-Reads g (listed g t) ts h.0.ascends h.1 in
    record {
      ids = r.ids;
      answers = rw (candidates, posting_ids-listed g t h.0) r.answers;
      ascends = r.ascends;
      has = λ i.
          let n = r.has i in
          elim (Bool-cases (has_id i (listed g t))) [
            | inl e ↦
                let l = has_id-inside i (length g.documents) (listed g t) h.0.inside e in
                ground arith
            | inr e ↦ ground arith
          ];
    }
