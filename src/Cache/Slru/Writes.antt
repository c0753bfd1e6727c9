-- ===== src/Cache/Slru/Writes.antt =====
-- `put`, `erase` and `clear` of slru_cache.h on a valid cache.
use work_smt.Base.{
  ℕ, refl, ◌↔◌, ite, [], ◌∙◌, ap, List, length, Bool-cases, ◌<◌, true, ◌⊎◌, some, arith, inr, none,
  false, inl, ◌≡◌, ◌≢◌, ◌∷◌, Option-cases,
}
use work_smt.Cache.Slru.{make, clear, remove, put, Entry, SlruCache}
use work_smt.Base.Assoc.{
  find-erase, count_key, count, find-update, length-unlink, update, unlink, find,
}
use work_smt.Cache.Slru.Moves.{
  remove_probation-IsCoherent, remove_protected-IsCoherent, listed_protected, listed_probation,
  value_of, front_probation-IsCoherent, front_protected-IsCoherent, admit-IsCoherent, held,
}
use work_smt.Cache.Slru.Lists.{count-back_pos, back}
use work_smt.Cache.Slru.Invariant.{evict-Evicts, IsValid}

module _ {K V : Type 0} (dec : Discrete K) where
  -- Another key reads as before, or it was the back of a full Probation and is gone.
  abbrev pub KeptOrEvicted : SlruCache K V → SlruCache K V → K → Type 0
  KeptOrEvicted s t j =
      (held dec j t ≡ held dec j s)
      ⊎ (held dec j t ≡ none)
        × (back s.probation ≡ some j)
        × (length s.probation ≡ s.probation_capacity)

  abbrev Puts : SlruCache K V → K → V → Type 0
  Puts s key value =
      (t : SlruCache K V) × (put dec s key value ≡ some t)
      × IsValid dec t
      × (held dec key t ≡ some value)
      × ((j : K) → j ≢ key → KeptOrEvicted s t j)

  put_protected :
      (s : SlruCache K V) (key : K) (value : V) (e : Entry V)
      → IsValid dec s
      → find dec key s.entries ≡ some e
      → e.is_protected ≡ true
      → Puts s key value
  unfolding put
  put_protected s key value e v here p = (
    record s {
      protected = key ∷ unlink dec key s.protected;
      entries = update dec key (record e { value = value }) s.entries;
    },
    ground (arith, here, p),
    record {
      coherent = front_protected-IsCoherent dec s v.coherent key e here value p;
      probation_positive = v.probation_positive;
      protected_positive = v.protected_positive;
      probation_bound = v.probation_bound;
      protected_bound = omega (
        arith,
        v.protected_bound,
        length-unlink dec key s.protected (listed_protected dec s v.coherent key e here p),
      );
    },
    ground (arith, find-update dec key key (record e { value = value }) e s.entries here),
    λ j h.
        inl (ground (arith, find-update dec j key (record e { value = value }) e s.entries here)),
  )

  put_probation :
      (s : SlruCache K V) (key : K) (value : V) (e : Entry V)
      → IsValid dec s
      → find dec key s.entries ≡ some e
      → e.is_protected ≡ false
      → Puts s key value
  unfolding put
  put_probation s key value e v here p = (
    record s {
      probation = key ∷ unlink dec key s.probation;
      entries = update dec key (record e { value = value }) s.entries;
    },
    ground (arith, here, p),
    record {
      coherent = front_probation-IsCoherent dec s v.coherent key e here value p;
      probation_positive = v.probation_positive;
      protected_positive = v.protected_positive;
      probation_bound = omega (
        arith,
        v.probation_bound,
        length-unlink dec key s.probation (listed_probation dec s v.coherent key e here p),
      );
      protected_bound = v.protected_bound;
    },
    ground (arith, find-update dec key key (record e { value = value }) e s.entries here),
    λ j h.
        inl (ground (arith, find-update dec j key (record e { value = value }) e s.entries here)),
  )

  -- The state of `put` before the eviction.
  admitted : SlruCache K V → K → V → SlruCache K V
  admitted s key value = record s {
    probation = key ∷ s.probation;
    entries = (key, record { value = value; is_protected = false }) ∷ s.entries;
  }

  held-admitted_self :
      (s : SlruCache K V) (key : K) (value : V) → held dec key (admitted s key value) ≡ some value
  unfolding admitted find
  held-admitted_self s key value = ground arith

  held-admitted_ne :
      (s : SlruCache K V) (key : K) (value : V) (j : K)
      → j ≢ key
      → held dec j (admitted s key value) ≡ held dec j s
  unfolding admitted find
  held-admitted_ne s key value j h = ground arith

  -- The back of a Probation that overflows is an old key.
  back-admitted :
      (s : SlruCache K V) (key : K) (value : V) (j : K)
      → IsValid dec s
      → back (admitted s key value).probation ≡ some j
      → s.probation_capacity < length (admitted s key value).probation
      → (back s.probation ≡ some j) × (length s.probation ≡ s.probation_capacity)
  unfolding admitted back
  back-admitted s key value j v e full = (overflow s.probation e (omega arith), omega arith)
    where
      overflow : (xs : List K) → back (key ∷ xs) ≡ some j → 0 < length xs → back xs ≡ some j
      overflow [] h pos = elim pos [ ]
      overflow (x ∷ xs) h pos = h

  put_new :
      (s : SlruCache K V) (key : K) (value : V)
      → IsValid dec s
      → find dec key s.entries ≡ none
      → Puts s key value
  unfolding put admitted
  put_new s key value v absent =
      let (t, run, d) =
        evict-Evicts dec (admitted s key value) (admit-IsCoherent dec s key value v.coherent absent)
          (omega (arith, v.probation_bound)) in
      (
        t,
        rw (put, absent) run,
        record {
          coherent = d.coherent;
          probation_positive = rw d.same_probation_capacity v.probation_positive;
          protected_positive = rw d.same_protected_capacity v.protected_positive;
          probation_bound = d.bounded;
          protected_bound = rw (d.same_protected, d.same_protected_capacity) v.protected_bound;
        },
        elim (d.reads key) [
          | inl kept ↦ ap value_of kept ∙ held-admitted_self s key value
          | inr (gone, e, full) ↦ absurd (
              ground (
                arith,
                count-back_pos dec key s.probation (back-admitted s key value key v e full).0,
                v.coherent.on_probation key,
              ))
        ],
        λ j h. elim (d.reads j) [
          | inl kept ↦ inl (ap value_of kept ∙ held-admitted_ne s key value j h)
          | inr (gone, e, full) ↦
              let (last, filled) = back-admitted s key value j v e full in
              inr (ap value_of gone, last, filled)
        ],
      )

  -- On a valid cache `put` stores the value and keeps the cache valid; every other key reads as
  -- before, but for the back of Probation when Probation was full.
  pub put-held : (s : SlruCache K V) (key : K) (value : V) → IsValid dec s → Puts s key value
  put-held s key value v = elim (Option-cases (find dec key s.entries)) [
    | inl absent ↦ put_new s key value v absent
    | inr (e, here) ↦ elim (Bool-cases e.is_protected) [
      | inl p ↦ put_protected s key value e v here p
      | inr p ↦ put_probation s key value e v here p
    ]
  ]

  removed :
      (s : SlruCache K V) (key : K) (e : Entry V)
      → find dec key s.entries ≡ some e
      → IsValid dec s
      → IsValid dec (remove dec s key).0
  unfolding remove
  removed s key e here v = elim (Bool-cases e.is_protected) [
    | inl p ↦
        let c = remove_protected-IsCoherent dec s v.coherent key e here p in
        let n =
          length-unlink dec key s.protected (listed_protected dec s v.coherent key e here p) in
        rw (remove, here, p)
          (record {
            coherent = c;
            probation_positive = v.probation_positive;
            protected_positive = v.protected_positive;
            probation_bound = v.probation_bound;
            protected_bound = omega (arith, n, v.protected_bound);
          })
    | inr p ↦
        let c = remove_probation-IsCoherent dec s v.coherent key e here p in
        let n =
          length-unlink dec key s.probation (listed_probation dec s v.coherent key e here p) in
        rw (remove, here, p)
          (record {
            coherent = c;
            probation_positive = v.probation_positive;
            protected_positive = v.protected_positive;
            probation_bound = omega (arith, n, v.probation_bound);
            protected_bound = v.protected_bound;
          })
  ]

  held-remove :
      (s : SlruCache K V) (key j : K)
      → IsValid dec s
      → held dec j (remove dec s key).0 ≡ ite (dec key j) none (held dec j s)
  unfolding remove
  held-remove s key j v = ground (arith, find-erase dec j key s.entries (v.coherent.keys key))

  -- `erase` keeps the cache valid and forgets exactly the key; it reports whether the key was held.
  pub remove-held :
      (s : SlruCache K V) (key : K)
      → IsValid dec s
      → IsValid dec (remove dec s key).0
        × ((j : K) → held dec j (remove dec s key).0 ≡ ite (dec key j) none (held dec j s))
        × (((remove dec s key).1 ≡ true) ↔ (held dec key s ≢ none))
  unfolding remove
  remove-held s key v = (
    elim (Option-cases (find dec key s.entries)) [
      | inl absent ↦ rw (remove, absent) v
      | inr (e, here) ↦ removed s key e here v
    ],
    λ j. held-remove s key j v,
    ((λ h e. ground arith), λ h. ground arith),
  )

  pub clear-IsValid : (s : SlruCache K V) → IsValid dec s → IsValid dec (clear s)
  unfolding clear count count_key find
  clear-IsValid s v = record {
    coherent = record {
      keys = λ k. omega arith;
      on_probation = λ k. refl;
      on_protected = λ k. refl;
      sized = refl;
    };
    probation_positive = v.probation_positive;
    protected_positive = v.protected_positive;
    probation_bound = omega arith;
    protected_bound = omega arith;
  }

  pub held-clear : (s : SlruCache K V) (j : K) → held dec j (clear s) ≡ none
  unfolding clear find
  held-clear s j = refl

  pub make-IsValid :
      (p q : ℕ)
      → 0 < p
      → 0 < q
      → (s : SlruCache K V) × (make p q ≡ some s) × IsValid dec s × ((j : K) → held dec j s ≡ none)
  unfolding make count count_key find
  make-IsValid p q hp hq = (
    record {
      probation_capacity = p;
      protected_capacity = q;
      probation = [];
      protected = [];
      entries = [];
    },
    ground arith,
    record {
      coherent = record {
        keys = λ k. omega arith;
        on_probation = λ k. refl;
        on_protected = λ k. refl;
        sized = refl;
      };
      probation_positive = hp;
      protected_positive = hq;
      probation_bound = omega arith;
      protected_bound = omega arith;
    },
    λ j. refl,
  )
