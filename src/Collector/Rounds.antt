-- ===== src/Collector/Rounds.antt =====
-- processTasks of 01_SMT_DataStream/src/collector/collector_app.cpp: which tasks a round takes.
use work_smt.Base.{
  refl, inr, inl, Bool-cases, arith, true, false, ◌⊎◌, ◌≢◌, ◌≡◌, ◌<◌, ◌≤◌, [], ◌∷◌, ℕ, List,
}
use work_smt.Collector.Machine.{process_task-Moves, Moves}
use work_smt.Collector.Models.{
  CollectorTaskState, CollectorConfig, CollectorTask, discovered, ready, uploading, completing,
  done, failed,
}
use work_smt.Collector.Uploader.{World}
use work_smt.Collector.Worker.{is_due, process_from, process_task, process_tasks}

-- At time `now` nothing is to be done for the task: it is done, it has failed, or it waits.
abbrev Rests : ℕ → CollectorTask → Type 0
Rests now t = (t.state ≡ done) ⊎ ((t.state ≡ failed) ⊎ (now < t.next_attempt_milliseconds))

-- The task has work left, and its next attempt may be made at time `now`.
abbrev Awaits : ℕ → CollectorTask → Type 0
Awaits now t = (t.state ≢ done) × (t.state ≢ failed) × (t.next_attempt_milliseconds ≤ now)

is_due-Awaits : (now : ℕ) (t : CollectorTask) → is_due now t ≡ true → Awaits now t
unfolding is_due
is_due-Awaits now t h = due t.state refl
  where
    due : (st : CollectorTaskState) → t.state ≡ st → Awaits now t
    due discovered e = (λ k. cc, λ k. cc, ground arith)
    due ready e = (λ k. cc, λ k. cc, ground arith)
    due uploading e = (λ k. cc, λ k. cc, ground arith)
    due completing e = (λ k. cc, λ k. cc, ground arith)
    due done e = absurd (ground arith)
    due failed e = absurd (ground arith)

is_due-Rests : (now : ℕ) (t : CollectorTask) → is_due now t ≡ false → Rests now t
unfolding is_due
is_due-Rests now t h = rests t.state refl
  where
    rests : (st : CollectorTaskState) → t.state ≡ st → Rests now t
    rests discovered e = inr (inr (ground arith))
    rests ready e = inr (inr (ground arith))
    rests uploading e = inr (inr (ground arith))
    rests completing e = inr (inr (ground arith))
    rests done e = inl e
    rests failed e = inr (inl e)

module _ (w : World) (config : CollectorConfig) where
  -- The tasks and the state of the world after a round that has begun at time `now`: the world goes
  -- from one task that has work to the next such task.
  abbrev pub Round : ℕ → List CollectorTask → w.State → List CollectorTask → w.State → Type 0
  Round now [] s [] last = last ≡ s
  Round now [] s (u ∷ us) last = ⊥
  Round now (t ∷ ts) s [] last = ⊥
  Round now (t ∷ ts) s (u ∷ us) last =
      (Rests now t × (u ≡ t) × Round now ts s us last)
      ⊎ (Awaits now t
          × (u ≡ (process_task w config t s).0)
          × Moves t u
          × Round now ts (process_task w config t s).1 us last)

  process_from-Round :
      (now : ℕ) (tasks : List CollectorTask) (s : w.State)
      → Round now tasks s
          (process_from w config now tasks s).0
          (process_from w config now tasks s).1
  unfolding process_from
  process_from-Round now [] s = refl
  process_from-Round now (t ∷ ts) s = elim (Bool-cases (is_due now t)) [
    | inl e ↦
        rw (process_from, e)
          (inr (
            is_due-Awaits now t e,
            refl,
            process_task-Moves w config t s,
            process_from-Round now ts (process_task w config t s).1,
          ))
    | inr e ↦ rw (process_from, e) (inl (is_due-Rests now t e, refl, process_from-Round now ts s))
  ]

  -- A round reads the clock once to choose its tasks. It leaves every task that is done, that has
  -- failed or whose next attempt is later than this time as it is and makes no call for it; every other
  -- task it takes through one step, which is one of the machine, in the order of the tasks, each in
  -- the world that the step before has left.
  pub process_tasks-Round :
      (tasks : List CollectorTask) (s : w.State)
      → Round
          (w.clock s).0
          tasks
          (w.clock s).1
          (process_tasks w config tasks s).0
          (process_tasks w config tasks s).1
  unfolding process_tasks
  process_tasks-Round tasks s = process_from-Round (w.clock s).0 tasks (w.clock s).1
