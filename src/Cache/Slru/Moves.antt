-- ===== src/Cache/Slru/Moves.antt =====
-- The moves between the partitions of slru_cache.h keep the lists and the map in agreement.
use work_smt.Cache.Slru.Lists.{length-pop_back, count-pop_back, count-back_pos}
use work_smt.Base.Assoc.{
  length-erase, find-erase, count_key-erase-le, count_key_absent, erase, count_key, count, unlink,
  count-unlink, length-unlink, find, update, find-update, count_key-update, length-update,
}
use work_smt.Base.{length, ◌<◌, ◌≡◌, true, false, Option, none, some, ◌∷◌, arith}
use work_smt.Cache.Slru.{pop_back, back, Entry, SlruCache, promote}
use work_smt.Cache.Slru.Invariant.{IsCoherent}

abbrev pub value_of : {V : Type 0} → Option (Entry V) → Option V
value_of none = none
value_of (some e) = some e.value

module _ {K V : Type 0} (dec : Discrete K) where
  -- What the cache holds for a key.
  abbrev pub held : K → SlruCache K V → Option V
  held k s = value_of (find dec k s.entries)

  module _ (s : SlruCache K V) (c : IsCoherent dec s) (key : K) (e : Entry V)
      (found : find dec key s.entries ≡ some e) where
    pub listed_probation : e.is_protected ≡ false → 0 < count dec key s.probation
    listed_probation h = ground (arith, c.on_probation key)

    pub listed_protected : e.is_protected ≡ true → 0 < count dec key s.protected
    listed_protected h = ground (arith, c.on_protected key)

    pub promote-IsCoherent : e.is_protected ≡ false → IsCoherent dec (promote dec s key e)
    unfolding promote count
    promote-IsCoherent h = record {
      keys = λ k. rw (count_key-update dec k key _ s.entries) (c.keys k);
      on_probation = λ k. ground (
        arith,
        find-update dec k key (record e { is_protected = true }) e s.entries,
        count-unlink dec k key s.probation (listed_probation h),
        c.on_probation k,
      );
      on_protected = λ k. ground (
        arith,
        find-update dec k key (record e { is_protected = true }) e s.entries,
        c.on_protected k,
      );
      sized = omega (
        arith,
        c.sized,
        length-update dec key (record e { is_protected = true }) s.entries,
        length-unlink dec key s.probation (listed_probation h),
      );
    }

    -- A new value, and a move to the front of Protected.
    pub front_protected-IsCoherent :
        (v : V)
        → e.is_protected ≡ true
        → IsCoherent dec (record s {
          protected = key ∷ unlink dec key s.protected;
          entries = update dec key (record e { value = v }) s.entries;
        })
    unfolding count
    front_protected-IsCoherent v h = record {
      keys = λ k. rw (count_key-update dec k key _ s.entries) (c.keys k);
      on_probation = λ k.
          ground
            (arith, find-update dec k key (record e { value = v }) e s.entries, c.on_probation k);
      on_protected = λ k. ground (
        arith,
        find-update dec k key (record e { value = v }) e s.entries,
        count-unlink dec k key s.protected (listed_protected h),
        c.on_protected k,
      );
      sized = omega (
        arith,
        c.sized,
        length-update dec key (record e { value = v }) s.entries,
        length-unlink dec key s.protected (listed_protected h),
      );
    }

    -- A hit in Protected moves the key to its front and writes nothing.
    pub touch_protected-IsCoherent :
        e.is_protected ≡ true
        → IsCoherent dec (record s { protected = key ∷ unlink dec key s.protected })
    unfolding count
    touch_protected-IsCoherent h = record {
      keys = c.keys;
      on_probation = c.on_probation;
      on_protected = λ k.
          omega (arith, count-unlink dec k key s.protected (listed_protected h), c.on_protected k);
      sized = omega (arith, c.sized, length-unlink dec key s.protected (listed_protected h));
    }

    pub front_probation-IsCoherent :
        (v : V)
        → e.is_protected ≡ false
        → IsCoherent dec (record s {
          probation = key ∷ unlink dec key s.probation;
          entries = update dec key (record e { value = v }) s.entries;
        })
    unfolding count
    front_probation-IsCoherent v h = record {
      keys = λ k. rw (count_key-update dec k key _ s.entries) (c.keys k);
      on_probation = λ k. ground (
        arith,
        find-update dec k key (record e { value = v }) e s.entries,
        count-unlink dec k key s.probation (listed_probation h),
        c.on_probation k,
      );
      on_protected = λ k.
          ground
            (arith, find-update dec k key (record e { value = v }) e s.entries, c.on_protected k);
      sized = omega (
        arith,
        c.sized,
        length-update dec key (record e { value = v }) s.entries,
        length-unlink dec key s.probation (listed_probation h),
      );
    }

    pub remove_protected-IsCoherent :
        e.is_protected ≡ true
        → IsCoherent dec
            (record s { protected = unlink dec key s.protected; entries = erase dec key s.entries })
    remove_protected-IsCoherent h = record {
      keys = λ k. omega (arith, c.keys k, count_key-erase-le dec k key s.entries);
      on_probation =
          λ k. ground (arith, find-erase dec k key s.entries (c.keys key), c.on_probation k);
      on_protected = λ k. ground (
        arith,
        find-erase dec k key s.entries (c.keys key),
        count-unlink dec k key s.protected (listed_protected h),
        c.on_protected k,
      );
      sized = omega (
        arith,
        c.sized,
        length-erase dec key e s.entries found,
        length-unlink dec key s.protected (listed_protected h),
      );
    }

    pub remove_probation-IsCoherent :
        e.is_protected ≡ false
        → IsCoherent dec
            (record s { probation = unlink dec key s.probation; entries = erase dec key s.entries })
    remove_probation-IsCoherent h = record {
      keys = λ k. omega (arith, c.keys k, count_key-erase-le dec k key s.entries);
      on_probation = λ k. ground (
        arith,
        find-erase dec k key s.entries (c.keys key),
        count-unlink dec k key s.probation (listed_probation h),
        c.on_probation k,
      );
      on_protected =
          λ k. ground (arith, find-erase dec k key s.entries (c.keys key), c.on_protected k);
      sized = omega (
        arith,
        c.sized,
        length-erase dec key e s.entries found,
        length-unlink dec key s.probation (listed_probation h),
      );
    }

  pub admit-IsCoherent :
      (s : SlruCache K V) (key : K) (v : V)
      → IsCoherent dec s
      → find dec key s.entries ≡ none
      → IsCoherent dec (record s {
        probation = key ∷ s.probation;
        entries = (key, record { value = v; is_protected = false }) ∷ s.entries;
      })
  unfolding count count_key find
  admit-IsCoherent s key v c absent = record {
    keys = λ k. ground (arith, c.keys k, count_key_absent dec key s.entries absent);
    on_probation = λ k. ground (arith, c.on_probation k);
    on_protected = λ k. ground (arith, c.on_protected k);
    sized = omega (arith, c.sized);
  }

  -- The back of Protected becomes the front of Probation.
  unfoldable pub demoted : SlruCache K V → K → Entry V → SlruCache K V
  demoted s b w = record s {
    protected = pop_back s.protected;
    probation = b ∷ s.probation;
    entries = update dec b (record w { is_protected = false }) s.entries;
  }

  pub demote-IsCoherent :
      (s : SlruCache K V) (b : K) (w : Entry V)
      → IsCoherent dec s
      → back s.protected ≡ some b
      → 0 < length s.protected
      → find dec b s.entries ≡ some w
      → IsCoherent dec (demoted s b w)
  unfolding count demoted
  demote-IsCoherent s b w c e pos here = record {
    keys = λ k. rw (count_key-update dec k b _ s.entries) (c.keys k);
    on_probation = λ k. ground (
      arith,
      find-update dec k b (record w { is_protected = false }) w s.entries,
      count-back_pos dec b s.protected e,
      c.on_protected b,
      c.on_probation k,
    );
    on_protected = λ k. ground (
      arith,
      find-update dec k b (record w { is_protected = false }) w s.entries,
      count-pop_back dec k b s.protected e,
      count-back_pos dec b s.protected e,
      c.on_protected b,
      c.on_protected k,
    );
    sized = omega (
      arith,
      c.sized,
      length-update dec b (record w { is_protected = false }) s.entries,
      length-pop_back s.protected pos,
    );
  }
