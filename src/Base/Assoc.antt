-- ===== src/Base/Assoc.antt =====
-- Association lists for `std::map` and `std::unordered_map`, and lists of keys, over keys with a
-- decidable equality. Occurrences are counted by native numbers.
use Prim.Native.Nat.{ℕ, suc, ◌+◌, ◌≤◌, ◌<◌}
use mathlib.Core.Path.{◌≡◌, refl}
use mathlib.Core.Logic.{ite}
use mathlib.Core.Option.{Option, none, some}
use mathlib.Core.List.{List, [], ◌∷◌}
use native.Mathlib.Omega.{arith}
use work_smt.Base.Lists.{length}

module _ {K : Type 0} (dec : Discrete K) where
  unfoldable pub count : K → List K → ℕ
  count k [] = 0
  count k (x ∷ xs) = ite (dec x k) 1 0 + count k xs

  -- The list without the node that holds `k`.
  unfoldable pub unlink : K → List K → List K
  unlink k [] = []
  unlink k (x ∷ xs) = ite (dec x k) xs (x ∷ unlink k xs)

  pub count-unlink :
      (j k : K) (xs : List K)
      → 0 < count k xs
      → count j (unlink k xs) + ite (dec k j) 1 0 ≡ count j xs
  unfolding count unlink
  count-unlink j k [] h = elim h [ ]
  count-unlink j k (x ∷ xs) h = ground (arith, count-unlink j k xs)

  pub length-unlink :
      (k : K) (xs : List K) → 0 < count k xs → suc (length (unlink k xs)) ≡ length xs
  unfolding count unlink
  length-unlink k [] h = elim h [ ]
  length-unlink k (x ∷ xs) h = ground (arith, length-unlink k xs)

module _ {K V : Type 0} (dec : Discrete K) where
  unfoldable pub find : K → List (K × V) → Option V
  find k [] = none
  find k (e ∷ m) = ite (dec e.0 k) (some e.1) (find k m)

  -- Writes through the iterator that `find` returned: the first entry of the key.
  unfoldable pub update : K → V → List (K × V) → List (K × V)
  update k v [] = []
  update k v (e ∷ m) = ite (dec e.0 k) ((k, v) ∷ m) (e ∷ update k v m)

  unfoldable pub erase : K → List (K × V) → List (K × V)
  erase k [] = []
  erase k (e ∷ m) = ite (dec e.0 k) m (e ∷ erase k m)

  unfoldable pub count_key : K → List (K × V) → ℕ
  count_key k [] = 0
  count_key k (e ∷ m) = ite (dec e.0 k) 1 0 + count_key k m

  pub count_key_absent : (k : K) (m : List (K × V)) → find k m ≡ none → count_key k m ≡ 0
  unfolding find count_key
  count_key_absent k [] h = refl
  count_key_absent k (e ∷ m) h = ground (arith, count_key_absent k m)

  find_of_count_key : (k : K) (m : List (K × V)) → count_key k m ≡ 0 → find k m ≡ none
  unfolding find count_key
  find_of_count_key k [] h = refl
  find_of_count_key k (e ∷ m) h = ground (arith, find_of_count_key k m)

  pub find-update :
      (j k : K) (v w : V) (m : List (K × V))
      → find k m ≡ some w
      → find j (update k v m) ≡ ite (dec k j) (some v) (find j m)
  unfolding find update
  find-update j k v w [] h = cc
  find-update j k v w (e ∷ m) h = ground (arith, find-update j k v w m)

  pub count_key-update :
      (j k : K) (v : V) (m : List (K × V)) → count_key j (update k v m) ≡ count_key j m
  unfolding count_key update
  count_key-update j k v [] = refl
  count_key-update j k v (e ∷ m) = ground (arith, count_key-update j k v m)

  pub length-update : (k : K) (v : V) (m : List (K × V)) → length (update k v m) ≡ length m
  unfolding update
  length-update k v [] = refl
  length-update k v (e ∷ m) = ground (arith, length-update k v m)

  pub find-erase :
      (j k : K) (m : List (K × V))
      → count_key k m ≤ 1
      → find j (erase k m) ≡ ite (dec k j) none (find j m)
  unfolding find erase count_key
  find-erase j k [] h = ground arith
  find-erase j k (e ∷ m) h = ground (arith, find-erase j k m, find_of_count_key k m)

  pub count_key-erase-le : (j k : K) (m : List (K × V)) → count_key j (erase k m) ≤ count_key j m
  unfolding erase count_key
  count_key-erase-le j k [] = omega arith
  count_key-erase-le j k (e ∷ m) = ground (arith, count_key-erase-le j k m)

  pub length-erase :
      (k : K) (w : V) (m : List (K × V)) → find k m ≡ some w → suc (length (erase k m)) ≡ length m
  unfolding find erase
  length-erase k w [] h = cc
  length-erase k w (e ∷ m) h = ground (arith, length-erase k w m)
