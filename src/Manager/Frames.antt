-- ===== src/Manager/Frames.antt =====
-- What the calls for one batch leave as it is.
use mathlib.Core.Option.{some-injective}
use work_smt.Manager.{
  throw, done, absent, demand, Action, BatchRow, Directory, Failure, Environment, Answer,
  IndexWorld, proceed, next_call, answered, refused, lost, ready,
}
use work_smt.Base.{
  if◌then◌else◌, Bool-cases, arith, subst, inr, refl, ◌⊎◌, inl, true, Bool, false, Option, some,
  ◌∙◌, Option-cases, ◌≡◌, ◌==◌, ℕ,
}
use work_smt.Base.Results.{thrown, ok, Result}
use work_smt.Manager.Repository.{same_state, update_row, set_row, execute_changed_update}
use work_smt.Collector.Uploader.{or_else}
use work_smt.Manager.Directories.{remove_segment, set_directory}

-- Nothing but the row and the directory of the batch `id` differs.
pub record Local (id : ℕ) (w v : IndexWorld) : Type 0 where
  pub rows : (k : ℕ) → (k == id) ≡ false → v.batches k ≡ w.batches k
  pub directories : (k : ℕ) → (k == id) ≡ false → v.directories k ≡ w.directories k
  pub snapshot : v.snapshot ≡ w.snapshot

pub Local-refl : (id : ℕ) (w : IndexWorld) → Local id w w
Local-refl id w = record { rows = λ k e. refl; directories = λ k e. refl; snapshot = refl }

pub Local-trans : (id : ℕ) (u v w : IndexWorld) → Local id u v → Local id v w → Local id u w
Local-trans id u v w a b = record {
  rows = λ k e. b.rows k e ∙ a.rows k e;
  directories = λ k e. b.directories k e ∙ a.directories k e;
  snapshot = b.snapshot ∙ a.snapshot;
}

-- The batch is not READY.
abbrev pub NotReady : IndexWorld → ℕ → Type 0
NotReady w k = (r : BatchRow) → w.batches k ≡ some r → same_state r.state ready ≡ false

-- Calls for the batch have left it not READY.
pub record Idle (id : ℕ) (w v : IndexWorld) : Type 0 where
  pub kept : Local id w v
  pub idle : NotReady v id

pub Idle-next_call : (id : ℕ) (w v : IndexWorld) → Idle id w v → Idle id w (next_call v)
unfolding next_call
Idle-next_call id w v h = record {
  kept = record {
    rows = h.kept.rows;
    directories = h.kept.directories;
    snapshot = h.kept.snapshot;
  };
  idle = h.idle;
}

pub Idle-refl : (id : ℕ) (w : IndexWorld) → NotReady w id → Idle id w w
Idle-refl id w h = record { kept = Local-refl id w; idle = h }

pub Idle-trans : (id : ℕ) (u v w : IndexWorld) → Idle id u v → Idle id v w → Idle id u w
Idle-trans id u v w a b = record { kept = Local-trans id u v w a.kept b.kept; idle = b.idle }

pub Answer-cases : (a : Answer) → (a ≡ answered) ⊎ ((a ≡ refused) ⊎ (a ≡ lost))
Answer-cases answered = inl refl
Answer-cases refused = inr (inl refl)
Answer-cases lost = inr (inr refl)

pub eq_refl : (n : ℕ) → (n == n) ≡ true
eq_refl n = ground arith

-- A property that a statement and the count of calls keep holds after the statement, however it ends.
pub execute_changed_update-keeps :
    (env : Environment) (J : IndexWorld → Type 0) (update : IndexWorld → Option IndexWorld)
    (w : IndexWorld)
    → ((v : IndexWorld) → J v → J (next_call v))
    → J w
    → ((v : IndexWorld) → update w ≡ some v → J v)
    → J (execute_changed_update env update w).1
unfolding execute_changed_update or_else
execute_changed_update-keeps env J update w n h k = elim (Answer-cases (env.answer w.tick)) [
  | inl e ↦ elim (Option-cases (update w)) [
    | inl z ↦ rw (execute_changed_update, e, z) (n w h)
    | inr (v, z) ↦ rw (execute_changed_update, e, z) (n v (k v z))
  ]
  | inr (inl e) ↦ rw (execute_changed_update, e) (n w h)
  | inr (inr e) ↦ elim (Option-cases (update w)) [
    | inl z ↦ rw (execute_changed_update, e, z) (n w h)
    | inr (v, z) ↦ rw (execute_changed_update, e, z) (n v (k v z))
  ]
]

pub set_row-Local : (id : ℕ) (r : BatchRow) (w : IndexWorld) → Local id w (set_row id r w)
unfolding set_row
set_row-Local id r w = record {
  rows = λ k e. rw e refl;
  directories = λ k e. refl;
  snapshot = refl;
}

pub set_directory-Local :
    (id : ℕ) (d : Directory) (w : IndexWorld) → Local id w (set_directory id d w)
unfolding set_directory
set_directory-Local id d w = record {
  rows = λ k e. refl;
  directories = λ k e. rw e refl;
  snapshot = refl;
}

pub set_directory-Idle :
    (id : ℕ) (d : Directory) (w : IndexWorld) → NotReady w id → Idle id w (set_directory id d w)
unfolding set_directory
set_directory-Idle id d w h = record { kept = set_directory-Local id d w; idle = h }

pub update_row-eq-some :
    (id : ℕ) (test : BatchRow → Bool) (change : BatchRow → BatchRow) (w v : IndexWorld)
    → update_row id test change w ≡ some v
    → (r : BatchRow) × (set_row id (change r) w ≡ v)
unfolding update_row
update_row-eq-some id test change w v h = elim (Option-cases (w.batches id)) [
  | inl e ↦ let k = rw (update_row, e) at h in cc
  | inr (r, e) ↦ elim (Bool-cases (test r)) [
    | inl t ↦ (r, some-injective (set_row id (change r) w) v (rw (update_row, e, t) at h))
    | inr t ↦ let k = rw (update_row, e, t) at h in cc
  ]
]

set_row-NotReady :
    (id : ℕ) (r : BatchRow) (w : IndexWorld)
    → same_state r.state ready ≡ false
    → NotReady (set_row id r w) id
unfolding set_row
set_row-NotReady id r w h s e =
    let same : r ≡ s = some-injective r s (rw (eq_refl id) at e) in
    subst (λ z. same_state z.state ready ≡ false) same h

-- A statement that makes its row another than READY.
pub update-Idle :
    (env : Environment) (id : ℕ) (test : BatchRow → Bool) (change : BatchRow → BatchRow)
    (w : IndexWorld)
    → ((r : BatchRow) → same_state (change r).state ready ≡ false)
    → NotReady w id
    → Idle id w (execute_changed_update env (update_row id test change) w).1
update-Idle env id test change w c h =
    execute_changed_update-keeps env (Idle id w) (update_row id test change) w (Idle-next_call id w)
      (Idle-refl id w h)
      (λ v e.
        let (r, same) = update_row-eq-some id test change w v e in
        subst (Idle id w) same (record {
          kept = set_row-Local id (change r) w;
          idle = set_row-NotReady id (change r) w (c r);
        }))

pub remove_segment-Idle :
    (env : Environment) (id : ℕ) (w : IndexWorld)
    → NotReady w id
    → Idle id w (remove_segment env id w).1
unfolding remove_segment
remove_segment-Idle env id w h = elim (Option-cases (env.removal w.tick)) [
  | inl e ↦
      rw (remove_segment, e)
        (Idle-next_call id w (set_directory id absent w) (set_directory-Idle id absent w h))
  | inr (left, e) ↦
      rw (remove_segment, e)
        (Idle-next_call id w (set_directory id left w) (set_directory-Idle id left w h))
]

-- A property that both parts of a chain keep.
pub proceed-keeps :
    {A B : Type 0} (J : IndexWorld → Type 0) (x : Result Failure A × IndexWorld) (f : A → Action B)
    → J x.1
    → ((a : A) → x.0 ≡ ok a → J (f a x.1).1)
    → J (proceed x f).1
unfolding proceed
proceed-keeps J (thrown e, w) f h k = h
proceed-keeps J (ok a, w) f h k = k a refl

demanded-keeps :
    (J : IndexWorld → Type 0) (e : Failure) (w : IndexWorld) (b : Bool)
    → J w
    → J ((if b then done tt else throw e) w).1
demanded-keeps J e w true h = h
demanded-keeps J e w false h = h

pub demand-keeps :
    (J : IndexWorld → Type 0) (e : Failure) (m : Action Bool) (w : IndexWorld)
    → J (m w).1
    → J (demand e m w).1
demand-keeps J e m w h =
    proceed-keeps J (m w) (λ b. if b then done tt else throw e) h
      (λ b k. demanded-keeps J e (m w).1 b h)
