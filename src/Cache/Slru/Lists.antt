-- ===== src/Cache/Slru/Lists.antt =====
-- `std::list::back` and `pop_back`, for the partitions of slru_cache.h.
use work_smt.Base.{suc, ◌+◌, ◌<◌, ◌≡◌, refl, ite, Option, none, some, List, [], ◌∷◌, length, arith}
use work_smt.Base.Assoc.{count}

module _ {ℓ} {A : Type ℓ} where
  -- `none` is the undefined behaviour of an empty list.
  unfoldable pub back : List A → Option A
  back [] = none
  back (x ∷ []) = some x
  back (x ∷ y ∷ xs) = back (y ∷ xs)

  unfoldable pub pop_back : List A → List A
  pop_back [] = []
  pop_back (x ∷ []) = []
  pop_back (x ∷ y ∷ xs) = x ∷ pop_back (y ∷ xs)

  pub back_total : (xs : List A) → 0 < length xs → (a : A) × (back xs ≡ some a)
  unfolding back
  back_total [] h = elim h [ ]
  back_total (x ∷ []) h = (x, refl)
  back_total (x ∷ y ∷ xs) h = back_total (y ∷ xs) (omega arith)

  pub length-pop_back : (xs : List A) → 0 < length xs → suc (length (pop_back xs)) ≡ length xs
  unfolding pop_back
  length-pop_back [] h = elim h [ ]
  length-pop_back (x ∷ []) h = refl
  length-pop_back (x ∷ y ∷ xs) h = omega (arith, length-pop_back (y ∷ xs))

module _ {K : Type 0} (dec : Discrete K) where
  pub count-pop_back :
      (j b : K) (xs : List K)
      → back xs ≡ some b
      → count dec j (pop_back xs) + ite (dec b j) 1 0 ≡ count dec j xs
  unfolding back pop_back count
  count-pop_back j b [] h = cc
  count-pop_back j b (x ∷ []) h = ground arith
  count-pop_back j b (x ∷ y ∷ xs) h = omega (arith, count-pop_back j b (y ∷ xs) h)

  -- The back of a list with another element in front is in the list behind it.
  pub count-back_pos : (b : K) (xs : List K) → back xs ≡ some b → 0 < count dec b xs
  unfolding back count
  count-back_pos b [] h = cc
  count-back_pos b (x ∷ []) h = ground arith
  count-back_pos b (x ∷ y ∷ xs) h = omega (arith, count-back_pos b (y ∷ xs) h)
