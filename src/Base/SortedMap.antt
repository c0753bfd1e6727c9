-- ===== src/Base/SortedMap.antt =====
-- `std::map` as a list of pairs in ascending order of the keys, which are compared by `less`.
use mathlib.Core.Path.{◌≡◌}
use mathlib.Core.Bool.{Bool, true, false, ◌&&◌, ◌||◌}
use mathlib.Core.Option.{Option, none, some}
use mathlib.Core.List.{List, [], ◌∷◌}
use mathlib.Core.Logic.{inl, inr}
use native.Mathlib.Omega.{arith}
use work_smt.Base.Tests.{Bool-cases}

module _ {K V : Type 0} (less : K → K → Bool) where
  -- `map[key]` replaced by `f` of the old value, at the place of the key.
  unfoldable pub alter : K → (Option V → V) → List (K × V) → List (K × V)
  alter key f [] = (key, f none) ∷ []
  alter key f (e ∷ m) = elim (less key e.0) [
    | true ↦ (key, f none) ∷ e ∷ m
    | false ↦ elim (less e.0 key) [ true ↦ e ∷ alter key f m | false ↦ (key, f (some e.1)) ∷ m ]
  ]

-- Keys that are not less either way are equal.
abbrev pub IsConnected : {K : Type 0} → (K → K → Bool) → Type 0
IsConnected {K} less = (a b : K) → (less a b ≡ false) → (less b a ≡ false) → (a ≡ b)

module _ {K V : Type 0} (same : K → K → Bool) where
  -- Some entry has the key and a value that passes the test.
  abbrev pub holds_at : K → (V → Bool) → List (K × V) → Bool
  holds_at key test [] = false
  holds_at key test (e ∷ m) = (same e.0 key && test e.1) || holds_at key test m

module _ {K V : Type 0} (less same : K → K → Bool) where
  -- When the new value passes the test if the old one does or `added` holds, and without an old value
  -- exactly if `added` holds, the map holds the test at the key as before or if `added` holds.
  pub holds_at-alter :
      IsConnected less
      → (key other : K) (f : Option V → V) (test : V → Bool) (added : Bool) (m : List (K × V))
      → (test (f none) ≡ added)
      → ((v : V) → test (f (some v)) ≡ (added || test v))
      → holds_at same other test (alter less key f m)
        ≡ ((same key other && added) || holds_at same other test m)
  unfolding alter
  holds_at-alter c key other f test added [] n s = rw n (ground arith)
  holds_at-alter c key other f test added (e ∷ m) n s = elim (Bool-cases (less key e.0)) [
    | inl a ↦ ground (arith, n)
    | inr a ↦ elim (Bool-cases (less e.0 key)) [
      | inl b ↦ let r = holds_at-alter c key other f test added m n s in ground arith
      | inr b ↦
          let same_key = c key e.0 a b in
          let v = s e.1 in rw (alter, a, b, v, same_key) (ground arith)
    ]
  ]
