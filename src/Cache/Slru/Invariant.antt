-- ===== src/Cache/Slru/Invariant.antt =====
-- The agreement of the two lists with the map, and that every operation of slru_cache.h keeps it
-- without undefined behaviour.
use work_smt.Base.{
  ℕ, suc, ◌+◌, ◌≤◌, ◌<◌, ◌≡◌, refl, ◌⊎◌, inl, inr, Option, none, some, length, leb, arith,
  Bool-cases, Option-cases, if◌then◌else◌,
}
use work_smt.Base.Assoc.{
  count, find, erase, count_key, find-erase, count_key-erase-le, length-erase,
}
use work_smt.Cache.Slru.Lists.{
  back, pop_back, back_total, length-pop_back, count-pop_back, count-back_pos,
}
use work_smt.Cache.Slru.{Entry, SlruCache, evict_probation_if_needed}

module _ {V : Type 0} where
  -- How often a key with this entry stands in Probation, and in Protected.
  abbrev pub in_probation : Option (Entry V) → ℕ
  in_probation none = 0
  in_probation (some e) = if e.is_protected then 0 else 1

  abbrev pub in_protected : Option (Entry V) → ℕ
  in_protected none = 0
  in_protected (some e) = if e.is_protected then 1 else 0

module _ {K V : Type 0} (dec : Discrete K) where
  -- The lists and the map agree; the bounds may be exceeded between two steps.
  pub record IsCoherent (s : SlruCache K V) : Type 0 where
    pub keys : (k : K) → count_key dec k s.entries ≤ 1
    pub on_probation : (k : K) → count dec k s.probation ≡ in_probation (find dec k s.entries)
    pub on_protected : (k : K) → count dec k s.protected ≡ in_protected (find dec k s.entries)
    pub sized : length s.entries ≡ length s.probation + length s.protected

  pub record IsValid (s : SlruCache K V) : Type 0 where
    pub coherent : IsCoherent s
    pub probation_positive : 0 < s.probation_capacity
    pub protected_positive : 0 < s.protected_capacity
    pub probation_bound : length s.probation ≤ s.probation_capacity
    pub protected_bound : length s.protected ≤ s.protected_capacity

  -- What an eviction does: it changes nothing, or drops the back of a full Probation.
  pub record Evicts (s t : SlruCache K V) : Type 0 where
    pub coherent : IsCoherent t
    pub bounded : length t.probation ≤ t.probation_capacity
    pub same_probation_capacity : t.probation_capacity ≡ s.probation_capacity
    pub same_protected_capacity : t.protected_capacity ≡ s.protected_capacity
    pub same_protected : t.protected ≡ s.protected
    pub reads :
        (j : K)
        → (find dec j t.entries ≡ find dec j s.entries)
          ⊎ (find dec j t.entries ≡ none)
            × (back s.probation ≡ some j)
            × (s.probation_capacity < length s.probation)

  evict_drops :
      (s : SlruCache K V) (b : K)
      → IsCoherent s
      → back s.probation ≡ some b
      → s.probation_capacity < length s.probation
      → length s.probation ≤ suc s.probation_capacity
      → Evicts s (record s { probation = pop_back s.probation; entries = erase dec b s.entries })
  evict_drops s b c e full over = record {
    coherent = record {
      keys = λ k. omega (arith, c.keys k, count_key-erase-le dec k b s.entries);
      on_probation = λ k. ground (
        arith,
        find-erase dec k b s.entries (c.keys b),
        count-pop_back dec k b s.probation e,
        count-back_pos dec b s.probation e,
        c.on_probation k,
        c.on_probation b,
      );
      on_protected = λ k. ground (
        arith,
        find-erase dec k b s.entries (c.keys b),
        count-back_pos dec b s.probation e,
        c.on_probation b,
        c.on_protected k,
      );
      sized = elim (Option-cases (find dec b s.entries)) [
        | inl gone ↦ absurd (ground (arith, c.on_probation b, count-back_pos dec b s.probation e))
        | inr (w, here) ↦ omega (
          arith,
          c.sized,
          length-erase dec b w s.entries here,
          length-pop_back s.probation (omega arith),
        )
      ];
    };
    bounded = omega (arith, length-pop_back s.probation (omega arith));
    same_probation_capacity = refl;
    same_protected_capacity = refl;
    same_protected = refl;
    reads = λ j. ground (arith, find-erase dec j b s.entries (c.keys b));
  }

  pub evict-Evicts :
      (s : SlruCache K V)
      → IsCoherent s
      → length s.probation ≤ suc s.probation_capacity
      → (t : SlruCache K V) × (evict_probation_if_needed dec s ≡ some t) × Evicts s t
  unfolding evict_probation_if_needed
  evict-Evicts s c over = elim (Bool-cases (leb (length s.probation) s.probation_capacity)) [
    | inl fits ↦ (
      s,
      rw fits,
      record {
        coherent = c;
        bounded = ground arith;
        same_probation_capacity = refl;
        same_protected_capacity = refl;
        same_protected = refl;
        reads = λ j. inl refl;
      },
    )
    | inr full ↦
        let pos : 0 < length s.probation = ground arith in
        let (b, e) = back_total s.probation pos in
        (
          record s { probation = pop_back s.probation; entries = erase dec b s.entries },
          rw (full, e),
          evict_drops s b c e (ground arith) over,
        )
  ]
