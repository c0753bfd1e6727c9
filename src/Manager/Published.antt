-- ===== src/Manager/Published.antt =====
-- The invariant of the published segments, and what the listings of the operations give.
use work_smt.Manager.Frames.{NotReady, Answer-cases, Local, proceed-keeps}
use work_smt.Manager.Publish.{value_or_throw, require_list, first_parsed}
use work_smt.Base.Results.{ok-injective, thrown, ok, Result}
use work_smt.Base.{
  ap, sym, inr, All, subst, ◌∙◌, refl, arith, inl, false, some, List, ◌==◌, Bool-cases, ◌≡◌, none,
  ℕ, Option,
}
use work_smt.Manager.Served.{IsServed, Settled, Good}
use work_smt.Store.Load.Searchable.{IsLoaded}
use work_smt.Manager.{
  BatchRow, BatchState, ParsedBatchDescriptor, Failure, Environment, next_call, Action, proceed,
  IndexWorld, parsed,
}
use work_smt.Manager.Repository.{select_rows, descriptor_of, first_row, list_rows}
use work_smt.Index.Snapshot.{IndexSnapshot}
use work_smt.Store.Load.{StorePlatform}

-- Every READY batch has a segment that can be loaded, and every segment of the snapshot was loaded.
pub record IsPublished (p : StorePlatform) (w : IndexWorld) : Type 0 where
  pub served : (k : ℕ) → Good p w k
  pub loaded : (s : IndexSnapshot) → w.snapshot ≡ some s → All (IsLoaded p) s.segments

pub IsPublished-next_call :
    (p : StorePlatform) (w : IndexWorld) → IsPublished p w → IsPublished p (next_call w)
unfolding next_call
IsPublished-next_call p w h = record { served = h.served; loaded = h.loaded }

pub NotReady-next_call : (w : IndexWorld) (id : ℕ) → NotReady w id → NotReady (next_call w) id
unfolding next_call
NotReady-next_call w id h = h

Good-Local :
    (p : StorePlatform) (id k : ℕ) (w v : IndexWorld)
    → Local id w v
    → (k == id) ≡ false
    → Good p w k
    → Good p v k
Good-Local p id k w v l e h r z s =
    subst (IsServed p k r) (sym (l.directories k e)) (h r (sym (l.rows k e) ∙ z) s)

pub IsPublished-Settled :
    (p : StorePlatform) (id : ℕ) (w v : IndexWorld)
    → IsPublished p w
    → Settled p id w v
    → IsPublished p v
IsPublished-Settled p id w v h s = record {
  served = λ k. elim (Bool-cases (k == id)) [
    | inl e ↦ let same : id ≡ k = ground arith in subst (Good p v) same s.good
    | inr e ↦ Good-Local p id k w v s.kept e (h.served k)
  ];
  loaded = λ x e. h.loaded x (sym s.kept.snapshot ∙ e);
}

-- The parts of a chain that has returned.
pub proceed-eq-ok :
    {A B : Type 0} (x : Result Failure A × IndexWorld) (f : A → Action B) (b : B)
    → (proceed x f).0 ≡ ok b
    → (a : A) × (x.0 ≡ ok a) × ((f a x.1).0 ≡ ok b)
unfolding proceed
proceed-eq-ok (thrown e, w) f b h = cc
proceed-eq-ok (ok a, w) f b h = (a, refl, h)

listed :
    {A : Type 0} (J : IndexWorld → Type 0) (w : IndexWorld) (o : Option A)
    → J w
    → J (value_or_throw o w).1
unfolding value_or_throw
listed J w none h = h
listed J w (some a) h = h

listed-some :
    {A : Type 0} (o : Option A) (a : A) (w : IndexWorld)
    → (value_or_throw o w).0 ≡ ok a
    → o ≡ some a
unfolding value_or_throw
listed-some none a w h = cc
listed-some (some b) a w h = ap some (ok-injective h)

-- The value of a listing.
required-eq-ok :
    {A : Type 0} (m : Action (Option A)) (w : IndexWorld) (a : A)
    → (require_list m w).0 ≡ ok a
    → (m w).0 ≡ ok (some a)
required-eq-ok m w a h =
    let (o, e, k) = proceed-eq-ok (m w) _ a h in e ∙ ap ok (listed-some o a (m w).1 k)

pub require_list-keeps :
    {A : Type 0} (J : IndexWorld → Type 0) (m : Action (Option A)) (w : IndexWorld)
    → J (m w).1
    → J (require_list m w).1
require_list-keeps J m w h = proceed-keeps J (m w) _ h (λ o e. listed J (m w).1 o h)

pub list_rows-stays :
    {D : Type 0} (env : Environment) (state : BatchState) (read : ℕ → BatchRow → Option D)
    (w : IndexWorld)
    → (list_rows env state read w).1 ≡ next_call w
unfolding list_rows
list_rows-stays env state read w = elim (Answer-cases (env.answer w.tick)) [
  | inl e ↦ rw (list_rows, e) refl
  | inr (inl e) ↦ rw (list_rows, e) refl
  | inr (inr e) ↦ rw (list_rows, e) refl
]

pub first_parsed-stays : (env : Environment) (w : IndexWorld) → (first_parsed env w).1 ≡ next_call w
unfolding first_parsed
first_parsed-stays env w = elim (Answer-cases (env.answer w.tick)) [
  | inl e ↦ rw (first_parsed, e) refl
  | inr (inl e) ↦ rw (first_parsed, e) refl
  | inr (inr e) ↦ rw (first_parsed, e) refl
]

-- What a listing that has not thrown was.
pub listing-eq-ok :
    {D : Type 0} (env : Environment) (state : BatchState) (read : ℕ → BatchRow → Option D)
    (w : IndexWorld) (ds : List D)
    → (require_list (list_rows env state read) w).0 ≡ ok ds
    → select_rows w.batches state read 0 w.batch_limit ≡ some ds
unfolding list_rows
listing-eq-ok env state read w ds h =
    let k = required-eq-ok (list_rows env state read) w ds h in
    elim (Answer-cases (env.answer w.tick)) [
      | inl e ↦ ok-injective (rw (list_rows, e) at k)
      | inr (inl e) ↦ let c = ok-injective (rw (list_rows, e) at k) in cc
      | inr (inr e) ↦ let c = ok-injective (rw (list_rows, e) at k) in cc
    ]

pub first-eq-ok :
    (env : Environment) (w : IndexWorld) (o : Option ParsedBatchDescriptor)
    → (require_list (first_parsed env) w).0 ≡ ok o
    → first_row w.batches parsed descriptor_of 0 w.batch_limit ≡ some o
unfolding first_parsed
first-eq-ok env w o h =
    let k = required-eq-ok (first_parsed env) w o h in
    elim (Answer-cases (env.answer w.tick)) [
      | inl e ↦ ok-injective (rw (first_parsed, e) at k)
      | inr (inl e) ↦ let c = ok-injective (rw (first_parsed, e) at k) in cc
      | inr (inr e) ↦ let c = ok-injective (rw (first_parsed, e) at k) in cc
    ]
