-- ===== src/Tests/Cache.antt =====
-- Concrete runs of the segmented LRU cache, with capacities 1 and 1.
use work_smt.Base.Assoc.{unlink, update, count, count_key, find}
use work_smt.Cache.Slru.Writes.{KeptOrEvicted, put-held, remove-held}
use work_smt.Base.{
  ◌↔◌, ◌≢◌, none, true, some, refl, false, ite, [], Option, arith, ◌≡◌, ◌∷◌, List, ℕ_discrete, ℕ,
}
use work_smt.Cache.Slru.{SlruCache, make}
use work_smt.Cache.Slru.Invariant.{IsValid}
use work_smt.Cache.Slru.Reads.{get-held}
use work_smt.Cache.Slru.Moves.{held}
use work_smt.Cache.Slru.History.{Call, run, ideal_run, Sound, run-make-Sound}
use work_smt.Cache.Slru

abbrev empty : SlruCache ℕ ℕ
empty = record {
  probation_capacity = 1;
  protected_capacity = 1;
  probation = [];
  protected = [];
  entries = [];
}

abbrev one : SlruCache ℕ ℕ
one = record empty {
  probation = 7 ∷ [];
  entries = (7, record { value = 70; is_protected = false }) ∷ [];
}

one-IsValid : IsValid ℕ_discrete one
unfolding find count count_key ℕ_discrete
one-IsValid = record {
  coherent = record {
    keys = λ k. ground arith;
    on_probation = λ k. ground arith;
    on_protected = λ k. ground arith;
    sized = refl;
  };
  probation_positive = omega arith;
  protected_positive = omega arith;
  probation_bound = omega arith;
  protected_bound = omega arith;
}

-- Promotion, demotion and eviction on a concrete run.
run_test :
    run ℕ_discrete (Call.put 1 10 ∷ Call.get 1 ∷ Call.put 2 20 ∷ Call.get 2 ∷ Call.get 3 ∷ []) empty
    ≡ some (
      record {
        probation_capacity = 1;
        protected_capacity = 1;
        probation = 1 ∷ [];
        protected = 2 ∷ [];
        entries =
            (2, record { value = 20; is_protected = true })
            ∷ (1, record { value = 10; is_protected = false })
            ∷ [];
      },
      none ∷ some 10 ∷ none ∷ some 20 ∷ none ∷ [],
    )
unfolding run ℕ_discrete Slru.get Slru.put work_smt.Cache.Slru.History.step find
    Slru.evict_probation_if_needed Slru.read_found Slru.demote_protected_if_needed Slru.promote
    update unlink work_smt.Cache.Slru.Lists.back Slru.demote work_smt.Cache.Slru.Lists.pop_back
run_test = refl

get-held_example :
    (t : SlruCache ℕ ℕ) × (Slru.get ℕ_discrete one 7 ≡ some (t, held ℕ_discrete 7 one))
    × IsValid ℕ_discrete t
    × ((j : ℕ) → held ℕ_discrete j t ≡ held ℕ_discrete j one)
get-held_example = get-held ℕ_discrete one 7 one-IsValid

put-held_example :
    (t : SlruCache ℕ ℕ) × (Slru.put ℕ_discrete one 8 80 ≡ some t)
    × IsValid ℕ_discrete t
    × (held ℕ_discrete 8 t ≡ some 80)
    × ((j : ℕ) → j ≢ 8 → KeptOrEvicted ℕ_discrete one t j)
put-held_example = put-held ℕ_discrete one 8 80 one-IsValid

remove-held_example :
    IsValid ℕ_discrete (Slru.remove ℕ_discrete one 7).0
    × ((j : ℕ)
        → held ℕ_discrete j (Slru.remove ℕ_discrete one 7).0
          ≡ ite (ℕ_discrete 7 j) none (held ℕ_discrete j one))
    × (((Slru.remove ℕ_discrete one 7).1 ≡ true) ↔ (held ℕ_discrete 7 one ≢ none))
remove-held_example = remove-held ℕ_discrete one 7 one-IsValid

abbrev calls : List (Call ℕ ℕ)
calls = Call.put 1 10 ∷ Call.put 2 20 ∷ Call.get 1 ∷ Call.erase 2 ∷ Call.clear ∷ []

run-make-Sound_example :
    (s : SlruCache ℕ ℕ) × (t : SlruCache ℕ ℕ) × (os : List (Option ℕ)) × (make 1 1 ≡ some s)
    × (run ℕ_discrete calls s ≡ some (t, os))
    × IsValid ℕ_discrete t
    × Sound ℕ_discrete os (ideal_run ℕ_discrete calls (λ j. none))
run-make-Sound_example = run-make-Sound ℕ_discrete 1 1 calls (omega arith) (omega arith)
