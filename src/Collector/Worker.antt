-- ===== src/Collector/Worker.antt =====
-- 01_SMT_DataStream/src/collector/collector_app.cpp: one step of a task's upload, the retry delay
-- and the loop over the tasks. The spool keeps a file of each task: every change is saved to it, and
-- the payload is removed when a task is done. These files are not modelled; an error on them ends the
-- program.
use work_smt.Collector.Models.{
  success, failed, CollectorTaskState, permanent_failure, success, failed, discovered,
  session_missing, ready, retryable, uploading, CollectorConfig, done, completing, CollectorTask,
  UploadCallResult, RetryConfig,
}
use work_smt.Base.{
  zero, ◌||◌, ◌-◌, if◌then◌else◌, leb, ◌+◌, true, ◌*◌, suc, ◌∷◌, Bool, false, [], ℕ, List,
}
use work_smt.Collector.Uploader.{
  is_success, upload_chunk, query_progress, create_session, complete, World,
}
use work_smt.Base.Bytes.{bytes_eq, codes, Bytes}
use Prim.Native.Nat.{min}

unfoldable pub has_device : Bytes → List Bytes → Bool
has_device device [] = false
has_device device (d ∷ ds) = bytes_eq d device || has_device device ds

-- The rest of the loop that doubles the delay, for the given number of rounds.
unfoldable pub back_off : RetryConfig → ℕ → ℕ → ℕ
back_off retry zero delay = delay
back_off retry (suc rounds) delay = back_off retry rounds (min (delay * 2) retry.max_delay_ms)

-- `now` is what the clock gives at this call.
unfoldable pub schedule_retry : RetryConfig → ℕ → Bytes → CollectorTask → CollectorTask
schedule_retry retry now code task =
    let attempts = min (task.retry_attempts + 1) retry.max_backoff_steps in
    record task {
      retry_attempts = attempts;
      next_attempt_milliseconds = now + back_off retry (attempts - 1) retry.base_delay_ms;
      last_error = code;
    }

unfoldable pub fail_task : Bytes → CollectorTask → CollectorTask
fail_task code task = record task {
  state = failed;
  last_error = code;
  next_attempt_milliseconds = 0;
}

unfoldable pub lose_session : CollectorTask → CollectorTask
lose_session task = record task {
  upload_id = [];
  state = ready;
  retry_attempts = 0;
  last_error = codes "UPLOAD_SESSION_LOST";
}

unfoldable pub open_session : UploadCallResult → CollectorTask → CollectorTask
open_session r task = record task {
  upload_id = r.upload_id;
  chunk_size = r.chunk_size;
  chunk_count = r.chunk_count;
  state = uploading;
  retry_attempts = 0;
  next_attempt_milliseconds = 0;
  last_error = [];
}

unfoldable pub start_completing : CollectorTask → CollectorTask
start_completing task = record task { state = completing; retry_attempts = 0; last_error = [] }

unfoldable pub finish : UploadCallResult → CollectorTask → CollectorTask
finish r task = record task {
  state = done;
  archive_id = r.archive_id;
  retry_attempts = 0;
  next_attempt_milliseconds = 0;
  last_error = [];
}

-- The task takes part in a round: neither done nor failed, and its next attempt is due.
unfoldable pub is_due : ℕ → CollectorTask → Bool
is_due now task = elim task.state [
  | done ↦ false
  | failed ↦ false
  | discovered ↦ leb task.next_attempt_milliseconds now
  | ready ↦ leb task.next_attempt_milliseconds now
  | uploading ↦ leb task.next_attempt_milliseconds now
  | completing ↦ leb task.next_attempt_milliseconds now
]

module _ (w : World) where
  -- The loop over the missing chunks; `result` is kept when every chunk is accepted.
  unfoldable pub upload_chunks :
      CollectorTask → UploadCallResult → List ℕ → w.State → UploadCallResult × w.State
  upload_chunks task result [] s = (result, s)
  upload_chunks task result (n ∷ ns) s =
      let (uploaded, next) = upload_chunk w task n s in
      elim (is_success uploaded) [
        | true ↦ upload_chunks task result ns next
        | false ↦ (uploaded, next)
      ]

  -- The end of `processTask`, for a result on which no branch has returned.
  unfoldable pub give_up :
      RetryConfig → UploadCallResult → CollectorTask → w.State → CollectorTask × w.State
  give_up retry r task s = elim r.status [
    | retryable ↦ let (now, next) = w.clock s in (schedule_retry retry now r.error_code task, next)
    | success ↦ (fail_task r.error_code task, s)
    | session_missing ↦ (fail_task r.error_code task, s)
    | permanent_failure ↦ (fail_task r.error_code task, s)
  ]

  unfoldable pub process_ready : RetryConfig → CollectorTask → w.State → CollectorTask × w.State
  process_ready retry task s =
      let (r, next) = create_session w task s in
      if is_success r then (open_session r task, next) else give_up retry r task next

  unfoldable pub process_uploading : RetryConfig → CollectorTask → w.State → CollectorTask × w.State
  process_uploading retry task s =
      let (r, next) = query_progress w task s in
      elim r.status [
        | session_missing ↦ (lose_session task, next)
        | success ↦
            let (final, last) = upload_chunks task r r.missing_chunks next in
            if is_success final
            then (start_completing task, last)
            else give_up retry final task last
        | retryable ↦ give_up retry r task next
        | permanent_failure ↦ give_up retry r task next
      ]

  unfoldable pub process_completing :
      RetryConfig → CollectorTask → w.State → CollectorTask × w.State
  process_completing retry task s =
      let (r, next) = complete w task s in
      elim r.status [
        | session_missing ↦ (lose_session task, next)
        | success ↦ (finish r task, next)
        | retryable ↦ give_up retry r task next
        | permanent_failure ↦ give_up retry r task next
      ]

  -- The branches of `processTask` on the state.
  unfoldable pub process_state :
      RetryConfig → CollectorTask → w.State → CollectorTaskState → CollectorTask × w.State
  process_state retry task s ready = process_ready retry task s
  process_state retry task s uploading = process_uploading retry task s
  process_state retry task s completing = process_completing retry task s
  process_state retry task s discovered = (task, s)
  process_state retry task s done = (task, s)
  process_state retry task s failed = (task, s)

  unfoldable pub process_task : CollectorConfig → CollectorTask → w.State → CollectorTask × w.State
  process_task config task s = elim (has_device task.device_id config.devices) [
    | false ↦ (fail_task (codes "DEVICE_CONFIG_MISSING") task, s)
    | true ↦ process_state config.retry task s task.state
  ]

  -- The loop over the tasks, for the time at which the round has begun.
  unfoldable pub process_from :
      CollectorConfig → ℕ → List CollectorTask → w.State → List CollectorTask × w.State
  process_from config now [] s = ([], s)
  process_from config now (task ∷ tasks) s = elim (is_due now task) [
    | true ↦
        let (t, next) = process_task config task s in
        let (ts, last) = process_from config now tasks next in (t ∷ ts, last)
    | false ↦ let (ts, last) = process_from config now tasks s in (task ∷ ts, last)
  ]

  unfoldable pub process_tasks :
      CollectorConfig → List CollectorTask → w.State → List CollectorTask × w.State
  process_tasks config tasks s = let (now, next) = w.clock s in process_from config now tasks next
