-- ===== src/Cache/Slru.antt =====
-- 02_SMT_LogTrace/include/logtrace/cache/slru_cache.h: the segmented LRU cache.
-- The mutex serialises the calls, so a call is one function of the state. The iterator `position`
-- of an entry is the node that holds its key: `unlink` is `erase(position)`, and `splice` to the
-- front is an `unlink` and a push. `none` is undefined behaviour: `back()` of an empty list, or a
-- read through an iterator that is `end()` or was erased.
pub mod Lists
pub mod Invariant
pub mod Moves
pub mod Reads
pub mod Writes
pub mod History
use work_smt.Base.{
  ℕ, ◌+◌, Bool, true, false, ◌||◌, Option, none, some, List, [], ◌∷◌, length, leb, ◌==◌,
  if◌then◌else◌,
}
use work_smt.Base.Assoc.{unlink, find, update, erase}
use Lists.{back, pop_back}

pub record Entry (V : Type 0) : Type 0 where
  pub value : V
  pub is_protected : Bool

pub record SlruCache (K V : Type 0) : Type 0 where
  pub probation_capacity : ℕ
  pub protected_capacity : ℕ
  pub probation : List K
  pub protected : List K
  pub entries : List (K × Entry V)

-- The constructor; `none` is its `std::invalid_argument`.
unfoldable pub make : {K V : Type 0} → ℕ → ℕ → Option (SlruCache K V)
make probation_capacity protected_capacity =
    if probation_capacity == 0 || protected_capacity == 0
    then none
    else some (record {
      probation_capacity = probation_capacity;
      protected_capacity = protected_capacity;
      probation = [];
      protected = [];
      entries = [];
    })

module _ {K V : Type 0} (dec : Discrete K) where
  unfoldable pub evict_probation_if_needed : SlruCache K V → Option (SlruCache K V)
  evict_probation_if_needed s =
      if leb (length s.probation) s.probation_capacity then some s else (elim (back s.probation) [
        | none ↦ none
        | some key ↦
            some (record s { probation = pop_back s.probation; entries = erase dec key s.entries })
      ])

  -- The body of `demoteProtectedIfNeeded` behind its guard, for the key at the back.
  unfoldable pub demote : SlruCache K V → K → Option (SlruCache K V)
  demote s key = elim (find dec key s.entries) [
    | none ↦ none
    | some e ↦ evict_probation_if_needed (record s {
      protected = pop_back s.protected;
      probation = key ∷ s.probation;
      entries = update dec key (record e { is_protected = false }) s.entries;
    })
  ]

  unfoldable pub demote_protected_if_needed : SlruCache K V → Option (SlruCache K V)
  demote_protected_if_needed s =
      if leb (length s.protected) s.protected_capacity
      then some s
      else (elim (back s.protected) [ none ↦ none | some key ↦ demote s key ])

  -- `*value = found->second.value`, at the end of `get`.
  unfoldable pub read_found : K → Option (SlruCache K V) → Option (SlruCache K V × Option V)
  read_found key none = none
  read_found key (some s) = elim (find dec key s.entries) [
    | none ↦ none
    | some e ↦ some (s, some e.value)
  ]

  -- A hit in Probation moves the key to the front of Protected.
  unfoldable pub promote : SlruCache K V → K → Entry V → SlruCache K V
  promote s key e = record s {
    probation = unlink dec key s.probation;
    protected = key ∷ s.protected;
    entries = update dec key (record e { is_protected = true }) s.entries;
  }

  -- The returned value is `none` for a miss.
  unfoldable pub get : SlruCache K V → K → Option (SlruCache K V × Option V)
  get s key = elim (find dec key s.entries) [
    | none ↦ some (s, none)
    | some e ↦
        if e.is_protected
        then read_found key (some (record s { protected = key ∷ unlink dec key s.protected }))
        else read_found key (demote_protected_if_needed (promote s key e))
  ]

  unfoldable pub put : SlruCache K V → K → V → Option (SlruCache K V)
  put s key value = elim (find dec key s.entries) [
    | none ↦ evict_probation_if_needed (record s {
      probation = key ∷ s.probation;
      entries = (key, record { value = value; is_protected = false }) ∷ s.entries;
    })
    | some e ↦
        if e.is_protected
        then some (record s {
          protected = key ∷ unlink dec key s.protected;
          entries = update dec key (record e { value = value }) s.entries;
        })
        else some (record s {
          probation = key ∷ unlink dec key s.probation;
          entries = update dec key (record e { value = value }) s.entries;
        })
  ]

  -- `erase`: the new state, and whether an entry was deleted.
  unfoldable pub remove : SlruCache K V → K → SlruCache K V × Bool
  remove s key = elim (find dec key s.entries) [
    | none ↦ (s, false)
    | some e ↦
        if e.is_protected
        then (
          record s { protected = unlink dec key s.protected; entries = erase dec key s.entries },
          true,
        )
        else (
          record s { probation = unlink dec key s.probation; entries = erase dec key s.entries },
          true,
        )
  ]

unfoldable pub clear : {K V : Type 0} → SlruCache K V → SlruCache K V
clear s = record s { entries = []; probation = []; protected = [] }

unfoldable pub size : {K V : Type 0} → SlruCache K V → ℕ
size s = length s.entries
