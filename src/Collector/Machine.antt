-- ===== src/Collector/Machine.antt =====
-- The states of a task: which changes a step makes, and what holds in each state.
use work_smt.Collector.Worker.{
  process_state, has_device, process_task, upload_chunks, open_session, finish, process_ready,
  process_completing, start_completing, process_uploading, fail_task, give_up, schedule_retry,
  lose_session,
}
use work_smt.Base.Bytes.{codes, Bytes}
use work_smt.Base.{
  ◌==◌, ◌||◌, ◌&&◌, arith, refl, sym, true, subst, inr, if◌then◌else◌, inl, Bool-cases, ◌⊎◌, ℕ,
  false, ◌≤◌, ◌≡◌, is_empty,
}
use work_smt.Collector.Models.{
  success, failed, success, failed, CollectorConfig, permanent_failure, session_missing, done,
  retryable, UploadCallResult, completing, uploading, discovered, RetryConfig, ready,
  CollectorTaskState, CollectorTask, UploadCallStatus,
}
use work_smt.Collector.Uploader.{
  create_call, complete_call, request, empty_result, invalid_response, query_progress, is_success,
  create_session, complete, World,
}

pub data Step : CollectorTaskState → CollectorTaskState → Type 0 where
  stays : (s : CollectorTaskState) → Step s s
  opens : Step ready uploading
  uploads : Step uploading completing
  finishes : Step completing done
  loses_upload : Step uploading ready
  loses_completion : Step completing ready
  fails : (s : CollectorTaskState) → Step s failed

abbrev pub HasSession : CollectorTask → Type 0
HasSession t = (is_empty t.upload_id ≡ false) × (1 ≤ t.chunk_size) × (1 ≤ t.chunk_count)

-- While it uploads or completes, a task has a session; when done, it has an archive.
abbrev pub Facts : CollectorTaskState → CollectorTask → Type 0
Facts discovered t = Unit
Facts ready t = Unit
Facts uploading t = HasSession t
Facts completing t = HasSession t
Facts done t = 1 ≤ t.archive_id
Facts failed t = Unit

abbrev pub IsSound : CollectorTask → Type 0
IsSound t = Facts t.state t

-- The step from `task` to `t` is one of the machine and keeps what holds in its states.
pub record Moves (task t : CollectorTask) : Type 0 where
  pub step : Step task.state t.state
  pub keeps : IsSound task → IsSound t
  pub identity : t.task_id ≡ task.task_id

pub status-cases :
    (s : UploadCallStatus)
    → (s ≡ success) ⊎ ((s ≡ retryable) ⊎ ((s ≡ session_missing) ⊎ (s ≡ permanent_failure)))
status-cases success = inl refl
status-cases retryable = inr (inl refl)
status-cases session_missing = inr (inr (inl refl))
status-cases permanent_failure = inr (inr (inr refl))

Facts-schedule_retry :
    (s : CollectorTaskState) (retry : RetryConfig) (now : ℕ) (code : Bytes) (task : CollectorTask)
    → Facts s task
    → Facts s (schedule_retry retry now code task)
unfolding schedule_retry
Facts-schedule_retry discovered retry now code task h = h
Facts-schedule_retry ready retry now code task h = h
Facts-schedule_retry uploading retry now code task h = h
Facts-schedule_retry completing retry now code task h = h
Facts-schedule_retry done retry now code task h = h
Facts-schedule_retry failed retry now code task h = h

fail_task-Moves : (code : Bytes) (task : CollectorTask) → Moves task (fail_task code task)
unfolding fail_task
fail_task-Moves code task = record { step = fails task.state; keeps = λ h. tt; identity = refl }

schedule_retry-Moves :
    (retry : RetryConfig) (now : ℕ) (code : Bytes) (task : CollectorTask)
    → Moves task (schedule_retry retry now code task)
unfolding schedule_retry
schedule_retry-Moves retry now code task = record {
  step = stays task.state;
  keeps = Facts-schedule_retry task.state retry now code task;
  identity = refl;
}

session_step : (s : CollectorTaskState) → (s ≡ uploading) ⊎ (s ≡ completing) → Step s ready
session_step s (inl e) = subst (λ x. Step x ready) (sym e) loses_upload
session_step s (inr e) = subst (λ x. Step x ready) (sym e) loses_completion

lose_session-Moves :
    (task : CollectorTask)
    → (task.state ≡ uploading) ⊎ (task.state ≡ completing)
    → Moves task (lose_session task)
unfolding lose_session
lose_session-Moves task h = record {
  step = session_step task.state h;
  keeps = λ k. tt;
  identity = refl;
}

same-Moves : (task : CollectorTask) → Moves task task
same-Moves task = record { step = stays task.state; keeps = λ h. h; identity = refl }

module _ (w : World) where
  give_up-Moves :
      (retry : RetryConfig) (r : UploadCallResult) (task : CollectorTask) (s : w.State)
      → Moves task (give_up w retry r task s).0
  unfolding give_up
  give_up-Moves retry r task s = elim (status-cases r.status) [
    | inl e ↦ rw (give_up, e) (fail_task-Moves r.error_code task)
    | inr (inl e) ↦ rw (give_up, e) (schedule_retry-Moves retry (w.clock s).0 r.error_code task)
    | inr (inr (inl e)) ↦ rw (give_up, e) (fail_task-Moves r.error_code task)
    | inr (inr (inr e)) ↦ rw (give_up, e) (fail_task-Moves r.error_code task)
  ]

  create_session-HasSession :
      (task : CollectorTask) (s : w.State)
      → is_success (create_session w task s).0 ≡ true
      → let r = (create_session w task s).0 in
        (is_empty r.upload_id ≡ false) × (1 ≤ r.chunk_size) × (1 ≤ r.chunk_count)
  unfolding create_session is_success invalid_response empty_result
  create_session-HasSession task s h =
      let r = (request w (create_call task) s).0 in
      elim (Bool-cases
        (is_success r && (is_empty r.upload_id || r.chunk_size == 0 || r.chunk_count == 0))) [
          | inl e ↦ ground arith
          | inr e ↦ ground arith
        ]

  process_ready-Moves :
      (retry : RetryConfig) (task : CollectorTask) (s : w.State)
      → task.state ≡ ready
      → Moves task (process_ready w retry task s).0
  unfolding process_ready open_session
  process_ready-Moves retry task s h =
      let (r, next) = create_session w task s in
      elim (Bool-cases (is_success r)) [
        | inl e ↦
            rw (process_ready, e)
              (record {
                step = subst (λ x. Step x uploading) (sym h) opens;
                keeps = λ k. create_session-HasSession task s e;
                identity = refl;
              })
        | inr e ↦ rw (process_ready, e) (give_up-Moves retry r task next)
      ]

  complete-archive :
      (task : CollectorTask) (s : w.State)
      → (complete w task s).0.status ≡ success
      → 1 ≤ (complete w task s).0.archive_id
  unfolding complete is_success invalid_response empty_result
  complete-archive task s h =
      let r = (request w (complete_call task.upload_id) s).0 in
      elim (status-cases r.status) [
        | inl e ↦ ground arith
        | inr (inl e) ↦ ground arith
        | inr (inr (inl e)) ↦ ground arith
        | inr (inr (inr e)) ↦ ground arith
      ]

  process_completing-Moves :
      (retry : RetryConfig) (task : CollectorTask) (s : w.State)
      → task.state ≡ completing
      → Moves task (process_completing w retry task s).0
  unfolding process_completing finish
  process_completing-Moves retry task s h =
      let (r, next) = complete w task s in
      elim (status-cases r.status) [
        | inl e ↦
            rw (process_completing, e)
              (record {
                step = subst (λ x. Step x done) (sym h) finishes;
                keeps = λ k. complete-archive task s e;
                identity = refl;
              })
        | inr (inl e) ↦ rw (process_completing, e) (give_up-Moves retry r task next)
        | inr (inr (inl e)) ↦ rw (process_completing, e) (lose_session-Moves task (inr h))
        | inr (inr (inr e)) ↦ rw (process_completing, e) (give_up-Moves retry r task next)
      ]

  uploaded-Moves :
      (retry : RetryConfig) (task : CollectorTask) (r : UploadCallResult) (s : w.State)
      → task.state ≡ uploading
      → Moves task (if is_success r then (start_completing task, s) else give_up w retry r task s).0
  unfolding start_completing
  uploaded-Moves retry task r s h = elim (Bool-cases (is_success r)) [
    | inl e ↦ rw e (record {
      step = subst (λ x. Step x completing) (sym h) uploads;
      keeps = λ k. subst (λ x. Facts x task) h k;
      identity = refl;
    })
    | inr e ↦ rw e (give_up-Moves retry r task s)
  ]

  process_uploading-Moves :
      (retry : RetryConfig) (task : CollectorTask) (s : w.State)
      → task.state ≡ uploading
      → Moves task (process_uploading w retry task s).0
  unfolding process_uploading
  process_uploading-Moves retry task s h =
      let (r, next) = query_progress w task s in
      elim (status-cases r.status) [
        | inl e ↦
            rw (process_uploading, e)
              (let (final, last) = upload_chunks w task r r.missing_chunks next in
                uploaded-Moves retry task final last h)
        | inr (inl e) ↦ rw (process_uploading, e) (give_up-Moves retry r task next)
        | inr (inr (inl e)) ↦ rw (process_uploading, e) (lose_session-Moves task (inl h))
        | inr (inr (inr e)) ↦ rw (process_uploading, e) (give_up-Moves retry r task next)
      ]

  process_state-Moves :
      (retry : RetryConfig) (task : CollectorTask) (s : w.State) (st : CollectorTaskState)
      → task.state ≡ st
      → Moves task (process_state w retry task s st).0
  unfolding process_state
  process_state-Moves retry task s ready e = process_ready-Moves retry task s e
  process_state-Moves retry task s uploading e = process_uploading-Moves retry task s e
  process_state-Moves retry task s completing e = process_completing-Moves retry task s e
  process_state-Moves retry task s discovered e = same-Moves task
  process_state-Moves retry task s done e = same-Moves task
  process_state-Moves retry task s failed e = same-Moves task

  pub process_task-Moves :
      (config : CollectorConfig) (task : CollectorTask) (s : w.State)
      → Moves task (process_task w config task s).0
  unfolding process_task
  process_task-Moves config task s = elim (Bool-cases (has_device task.device_id config.devices)) [
    | inr d ↦ rw (process_task, d) (fail_task-Moves (codes "DEVICE_CONFIG_MISSING") task)
    | inl d ↦ rw (process_task, d) (process_state-Moves config.retry task s task.state refl)
  ]
