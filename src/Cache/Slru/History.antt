-- ===== src/Cache/Slru/History.antt =====
-- Runs of calls on slru_cache.h, against an ideal map that forgets nothing.
use work_smt.Base.{
  [], refl, sym, subst, if_neg, inr, if_pos, ◌⊎◌, inl, ◌≡◌, some, ◌<◌, none, ◌∷◌, ite, List, ℕ,
  Option,
}
use work_smt.Cache.Slru.Writes.{held-clear, clear-IsValid, make-IsValid, remove-held, put-held}
use work_smt.Cache.Slru.{make, SlruCache}
use work_smt.Cache.Slru.Moves.{held}
use work_smt.Cache.Slru.Reads.{get-held}
use work_smt.Cache.Slru.Invariant.{IsValid}
use work_smt.Cache.Slru

pub data Call (K V : Type 0) : Type 0 where
  get : K → Call K V
  put : K → V → Call K V
  erase : K → Call K V
  clear : Call K V

module _ {K V : Type 0} (dec : Discrete K) where
  abbrev outcome : Option (SlruCache K V) → Option (SlruCache K V × Option V)
  outcome none = none
  outcome (some t) = some (t, none)

  -- One call; a value is returned by `get` alone.
  unfoldable pub step : Call K V → SlruCache K V → Option (SlruCache K V × Option V)
  step (get k) s = Slru.get dec s k
  step (put k v) s = outcome (Slru.put dec s k v)
  step (erase k) s = some ((Slru.remove dec s k).0, none)
  step clear s = some (Slru.clear s, none)

  -- The ideal map after a call, and the value that it returns.
  pub ideal : Call K V → (K → Option V) → K → Option V
  ideal (get k) h = h
  ideal (put k v) h = λ j. ite (dec k j) (some v) (h j)
  ideal (erase k) h = λ j. ite (dec k j) none (h j)
  ideal clear h = λ j. none

  pub ideal_value : Call K V → (K → Option V) → Option V
  ideal_value (get k) h = h k
  ideal_value (put k v) h = none
  ideal_value (erase k) h = none
  ideal_value clear h = none

  -- What the cache holds is what the ideal map holds.
  abbrev pub Agrees : SlruCache K V → (K → Option V) → Type 0
  Agrees s h = (j : K) → (held dec j s ≡ none) ⊎ (held dec j s ≡ h j)

  unfoldable pub run : List (Call K V) → SlruCache K V → Option (SlruCache K V × List (Option V))
  run [] s = some (s, [])
  run (c ∷ cs) s = elim (step c s) [
    | none ↦ none
    | some (t, o) ↦ elim (run cs t) [ none ↦ none | some (u, os) ↦ some (u, o ∷ os) ]
  ]

  pub ideal_run : List (Call K V) → (K → Option V) → List (Option V)
  ideal_run [] h = []
  ideal_run (c ∷ cs) h = ideal_value c h ∷ ideal_run cs (ideal c h)

  -- Each answer is a miss or the ideal one.
  abbrev pub Sound : List (Option V) → List (Option V) → Type 0
  Sound [] [] = Unit
  Sound [] (i ∷ is) = ⊥
  Sound (o ∷ os) [] = ⊥
  Sound (o ∷ os) (i ∷ is) = ((o ≡ none) ⊎ (o ≡ i)) × Sound os is

  abbrev StepsSoundly : Call K V → SlruCache K V → (K → Option V) → Type 0
  StepsSoundly c s h =
      (t : SlruCache K V) × (o : Option V) × (step c s ≡ some (t, o))
      × IsValid dec t
      × ((o ≡ none) ⊎ (o ≡ ideal_value c h))
      × Agrees t (ideal c h)

  put-Sound :
      (k : K) (v : V) (s : SlruCache K V) (h : K → Option V)
      → IsValid dec s
      → Agrees s h
      → StepsSoundly (put k v) s h
  unfolding step ideal ideal_value
  put-Sound k v s h w a =
      let (t, ran, valid, self, others) = put-held dec s k v w in
      (
        t,
        none,
        rw ran,
        valid,
        inl refl,
        λ j. elim (dec k j) [
          | yes e ↦ inr (rw (if_pos _ e) (subst (λ x. held dec x t ≡ some v) e self))
          | no ne ↦ rw (if_neg _ ne) (elim (others j (λ e. ne (sym e))) [
            | inl kept ↦ rw kept (a j)
            | inr (gone, _, _) ↦ inl gone
          ])
        ],
      )

  step-Sound :
      (c : Call K V) (s : SlruCache K V) (h : K → Option V)
      → IsValid dec s
      → Agrees s h
      → StepsSoundly c s h
  unfolding step ideal ideal_value
  step-Sound (get k) s h w a =
      let (t, ran, valid, reads) = get-held dec s k w in
      (t, held dec k s, ran, valid, a k, λ j. rw (reads j) (a j))
  step-Sound (put k v) s h w a = put-Sound k v s h w a
  step-Sound (erase k) s h w a =
      let (valid, reads, _) = remove-held dec s k w in
      (
        (Slru.remove dec s k).0,
        none,
        refl,
        valid,
        inl refl,
        λ j. rw (reads j) (elim (dec k j) [
          | yes e ↦ inl (if_pos (dec k j) e none (held dec j s))
          | no ne ↦ rw (if_neg _ ne, if_neg _ ne) (a j)
        ]),
      )
  step-Sound clear s h w a =
      (Slru.clear s, none, refl, clear-IsValid dec s w, inl refl, λ j. inl (held-clear dec s j))

  run-Sound :
      (cs : List (Call K V)) (s : SlruCache K V) (h : K → Option V)
      → IsValid dec s
      → Agrees s h
      → (t : SlruCache K V) × (os : List (Option V)) × (run cs s ≡ some (t, os))
        × IsValid dec t
        × Sound os (ideal_run cs h)
  unfolding run ideal_run
  run-Sound [] s h w a = (s, [], refl, w, tt)
  run-Sound (c ∷ cs) s h w a =
      let (t, o, ran, valid, answer, agrees) = step-Sound c s h w a in
      let (u, os, rest, last, sound) = run-Sound cs t (ideal c h) valid agrees in
      (u, o ∷ os, rw (run, ran, rest), last, (answer, sound))

  -- Any sequence of calls on a new cache with positive capacities runs without undefined
  -- behaviour, ends in a valid cache, and answers each `get` with a miss or the value that a map
  -- without eviction would give: never a stale one.
  pub run-make-Sound :
      (p q : ℕ) (cs : List (Call K V))
      → 0 < p
      → 0 < q
      → (s : SlruCache K V) × (t : SlruCache K V) × (os : List (Option V)) × (make p q ≡ some s)
        × (run cs s ≡ some (t, os))
        × IsValid dec t
        × Sound os (ideal_run cs (λ j. none))
  run-make-Sound p q cs hp hq =
      let (s, made, w, empty) = make-IsValid dec p q hp hq in
      let (t, os, ran, valid, sound) = run-Sound cs s (λ j. none) w (λ j. inl (empty j)) in
      (s, t, os, made, ran, valid, sound)
