-- ===== src/Search/Postings/Intersection.antt =====
-- Ascending lists of local ids: what an intersection of them contains.
use work_smt.Base.{
  inr, inl, ltb, Bool-cases, ◌||◌, refl, ◌&&◌, false, [], arith, ◌==◌, ◌<◌, ◌∷◌, ◌≡◌, ◌≤◌, suc,
  Bool, List, ℕ,
}
use work_smt.Search.Postings.{set_intersection, merge}

abbrev pub Ascending : ℕ → List ℕ → Type 0
Ascending low [] = Unit
Ascending low (x ∷ xs) = (low ≤ x) × Ascending (suc x) xs

abbrev pub has_id : ℕ → List ℕ → Bool
has_id i [] = false
has_id i (x ∷ xs) = x == i || has_id i xs

pub Ascending-le : (low next : ℕ) (xs : List ℕ) → low ≤ next → Ascending next xs → Ascending low xs
Ascending-le low next [] h k = tt
Ascending-le low next (x ∷ xs) h k = (omega (arith, k.0), k.1)

pub has_id-below : (i low : ℕ) (xs : List ℕ) → i < low → Ascending low xs → has_id i xs ≡ false
has_id-below i low [] h k = refl
has_id-below i low (x ∷ xs) h k =
    let a = k.0 in let r = has_id-below i (suc x) xs (omega (arith, k.0)) k.1 in ground arith

-- What the merge asks of the function that merges the values after `x`.
abbrev Merges : ℕ → List ℕ → (List ℕ → List ℕ) → Type 0
Merges x xs rest =
    (low : ℕ) (ys : List ℕ)
    → Ascending low ys
    → (i : ℕ) → (has_id i (rest ys) ≡ (has_id i xs && has_id i ys))

has_id-merge :
    (x : ℕ) (xs : List ℕ) (rest : List ℕ → List ℕ)
    → Ascending (suc x) xs
    → Merges x xs rest
    → (low : ℕ) (ys : List ℕ) → Ascending low ys
    → (i : ℕ) → has_id i (merge x rest ys) ≡ ((x == i || has_id i xs) && has_id i ys)
unfolding merge
has_id-merge x xs rest h m low [] k i = ground arith
has_id-merge x xs rest h m low (y ∷ ys) k i =
    let a = m low (y ∷ ys) k i in
    let b = m (suc y) ys k.1 i in
    let c = has_id-merge x xs rest h m (suc y) ys k.1 i in
    elim (Bool-cases (ltb x y)) [
      | inl l ↦ elim (Bool-cases (x == i)) [
        | inl e ↦
            let z = has_id-below i y (y ∷ ys) (ground arith) (omega arith, k.1) in ground arith
        | inr e ↦ ground arith
      ]
      | inr l ↦ elim (Bool-cases (ltb y x)) [
        | inl g ↦ elim (Bool-cases (y == i)) [
          | inl e ↦ let z = has_id-below i (suc x) xs (ground arith) h in ground arith
          | inr e ↦ ground arith
        ]
        | inr g ↦ ground arith
      ]
    ]

-- An intersection of two ascending lists contains the ids that both contain, and no others.
pub has_id-set_intersection :
    (lowx lowy : ℕ) (xs ys : List ℕ)
    → Ascending lowx xs
    → Ascending lowy ys
    → (i : ℕ) → has_id i (set_intersection xs ys) ≡ (has_id i xs && has_id i ys)
unfolding set_intersection
has_id-set_intersection lowx lowy [] ys h k i = refl
has_id-set_intersection lowx lowy (x ∷ xs) ys h k i =
    has_id-merge x xs (set_intersection xs) h.1
      (λ low zs a. has_id-set_intersection (suc x) low xs zs h.1 a) lowy ys k i

Ascending-merge :
    (x : ℕ) (xs : List ℕ) (rest : List ℕ → List ℕ)
    → ((ys : List ℕ) → Ascending (suc x) (rest ys))
    → (ys : List ℕ) → Ascending x (merge x rest ys)
unfolding merge
Ascending-merge x xs rest h [] = tt
Ascending-merge x xs rest h (y ∷ ys) =
    let a = Ascending-le x (suc x) (rest (y ∷ ys)) (omega arith) (h (y ∷ ys)) in
    let b = Ascending-merge x xs rest h ys in
    elim (Bool-cases (ltb x y)) [
      | inl l ↦ rw (merge, l) a
      | inr l ↦ elim (Bool-cases (ltb y x)) [
        | inl g ↦ rw (merge, l, g) b
        | inr g ↦ rw (merge, l, g) (omega arith, h ys)
      ]
    ]

pub Ascending-set_intersection :
    (low : ℕ) (xs ys : List ℕ) → Ascending low xs → Ascending low (set_intersection xs ys)
unfolding set_intersection
Ascending-set_intersection low [] ys h = tt
Ascending-set_intersection low (x ∷ xs) ys h =
    Ascending-le low x (merge x (set_intersection xs) ys) h.0 (
      Ascending-merge x xs (set_intersection xs)
        (λ zs. Ascending-set_intersection (suc x) xs zs h.1) ys)
