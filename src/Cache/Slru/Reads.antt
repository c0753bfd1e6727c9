-- ===== src/Cache/Slru/Reads.antt =====
-- The operations of slru_cache.h on a valid cache: none meets undefined behaviour, each keeps the
-- invariant, and what a later `get` can read.
use work_smt.Cache.Slru.Moves.{
  listed_protected, touch_protected-IsCoherent, value_of, promote-IsCoherent, listed_probation,
  demote-IsCoherent, demoted, held,
}
use work_smt.Base.Assoc.{unlink, length-unlink, find-update, find}
use work_smt.Base.{
  ◌∷◌, refl, ap, ◌∙◌, leb, true, false, Bool-cases, inr, arith, inl, Option-cases, some, suc, ◌≤◌,
  ◌≡◌, ◌<◌, length,
}
use work_smt.Cache.Slru.Lists.{back_total, length-pop_back, count-back_pos, back}
use work_smt.Cache.Slru.{
  demote_protected_if_needed, read_found, get, promote, evict_probation_if_needed, demote, Entry,
  SlruCache,
}
use work_smt.Cache.Slru.Invariant.{IsCoherent, IsValid}

module _ {K V : Type 0} (dec : Discrete K) where
  record Demotes (s t : SlruCache K V) : Type 0 where
    coherent : IsCoherent dec t
    same_probation_capacity : t.probation_capacity ≡ s.probation_capacity
    same_protected_capacity : t.protected_capacity ≡ s.protected_capacity
    probation_bound : length t.probation ≤ t.probation_capacity
    protected_bound : length t.protected ≤ t.protected_capacity
    reads : (j : K) → held dec j t ≡ held dec j s

  demote-Demotes :
      (s : SlruCache K V) (b : K)
      → IsCoherent dec s
      → length s.probation < s.probation_capacity
      → length s.protected ≤ suc s.protected_capacity
      → back s.protected ≡ some b
      → 0 < length s.protected
      → (t : SlruCache K V) × (demote dec s b ≡ some t) × Demotes s t
  unfolding demote evict_probation_if_needed demoted
  demote-Demotes s b c room over e pos = elim (Option-cases (find dec b s.entries)) [
    | inl gone ↦ absurd (ground (arith, c.on_protected b, count-back_pos dec b s.protected e))
    | inr (w, here) ↦ (
      demoted dec s b w,
      ground (arith, here, room),
      record {
        coherent = demote-IsCoherent dec s b w c e pos here;
        same_probation_capacity = refl;
        same_protected_capacity = refl;
        probation_bound = room;
        protected_bound = omega (arith, length-pop_back s.protected pos);
        reads = λ j.
            ground
              (arith, find-update dec j b (record w { is_protected = false }) w s.entries here);
      },
    )
  ]

  demote_if_needed-Demotes :
      (s : SlruCache K V)
      → IsCoherent dec s
      → length s.probation < s.probation_capacity
      → length s.protected ≤ suc s.protected_capacity
      → (t : SlruCache K V) × (demote_protected_if_needed dec s ≡ some t) × Demotes s t
  unfolding demote_protected_if_needed
  demote_if_needed-Demotes s c room over =
      elim (Bool-cases (leb (length s.protected) s.protected_capacity)) [
        | inl fits ↦ (
          s,
          rw fits,
          record {
            coherent = c;
            same_probation_capacity = refl;
            same_protected_capacity = refl;
            probation_bound = omega arith;
            protected_bound = ground arith;
            reads = λ j. refl;
          },
        )
        | inr full ↦
            let pos : 0 < length s.protected = ground arith in
            let (b, e) = back_total s.protected pos in
            let (t, run, d) = demote-Demotes s b c room over e pos in (t, rw (full, e) run, d)
      ]

  -- `get` on an entry of Protected.
  get_protected :
      (s : SlruCache K V) (key : K) (e : Entry V)
      → IsValid dec s
      → find dec key s.entries ≡ some e
      → e.is_protected ≡ true
      → (t : SlruCache K V) × (get dec s key ≡ some (t, some e.value))
        × IsValid dec t
        × ((j : K) → held dec j t ≡ held dec j s)
  unfolding get read_found
  get_protected s key e v here p = (
    record s { protected = key ∷ unlink dec key s.protected },
    ground (arith, here, p),
    record {
      coherent = touch_protected-IsCoherent dec s v.coherent key e here p;
      probation_positive = v.probation_positive;
      protected_positive = v.protected_positive;
      probation_bound = v.probation_bound;
      protected_bound = omega (
        arith,
        v.protected_bound,
        length-unlink dec key s.protected (listed_protected dec s v.coherent key e here p),
      );
    },
    λ j. refl,
  )

  held-promote :
      (s : SlruCache K V) (key : K) (e : Entry V) (j : K)
      → find dec key s.entries ≡ some e
      → held dec j (promote dec s key e) ≡ held dec j s
  unfolding promote
  held-promote s key e j here =
      ground (arith, find-update dec j key (record e { is_protected = true }) e s.entries here)

  read_found-held :
      (key : K) (t : SlruCache K V) (w : V)
      → held dec key t ≡ some w
      → read_found dec key (some t) ≡ some (t, some w)
  unfolding read_found
  read_found-held key t w h = ground arith

  -- `get` on an entry of Probation: the promotion makes the room that the demotion takes.
  get_probation :
      (s : SlruCache K V) (key : K) (e : Entry V)
      → IsValid dec s
      → find dec key s.entries ≡ some e
      → e.is_protected ≡ false
      → (t : SlruCache K V) × (get dec s key ≡ some (t, some e.value))
        × IsValid dec t
        × ((j : K) → held dec j t ≡ held dec j s)
  unfolding get promote
  get_probation s key e v here p =
      let listed = listed_probation dec s v.coherent key e here p in
      let (t, run, d) =
        demote_if_needed-Demotes (promote dec s key e)
          (promote-IsCoherent dec s v.coherent key e here p)
          (omega (arith, length-unlink dec key s.probation listed, v.probation_bound))
          (omega (arith, v.protected_bound)) in
      let reads : (j : K) → held dec j t ≡ held dec j s =
        λ j. d.reads j ∙ held-promote s key e j here in
      (
        t,
        rw (here, get, p, run) (read_found-held key t e.value (reads key ∙ ap value_of here)),
        record {
          coherent = d.coherent;
          probation_positive = rw d.same_probation_capacity v.probation_positive;
          protected_positive = rw d.same_protected_capacity v.protected_positive;
          probation_bound = d.probation_bound;
          protected_bound = d.protected_bound;
        },
        reads,
      )

  -- On a valid cache `get` returns what the cache holds for the key, keeps the cache valid, and
  -- loses no entry: a promotion never evicts.
  pub get-held :
      (s : SlruCache K V) (key : K)
      → IsValid dec s
      → (t : SlruCache K V) × (get dec s key ≡ some (t, held dec key s))
        × IsValid dec t
        × ((j : K) → held dec j t ≡ held dec j s)
  unfolding get
  get-held s key v = elim (Option-cases (find dec key s.entries)) [
    | inl absent ↦ (s, rw (get, absent), v, λ j. refl)
    | inr (e, here) ↦ elim (Bool-cases e.is_protected) [
      | inl p ↦ rw here (get_protected s key e v here p)
      | inr p ↦ rw here (get_probation s key e v here p)
    ]
  ]
