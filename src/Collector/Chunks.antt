-- ===== src/Collector/Chunks.antt =====
-- The chunks that a task sends before it completes.
use work_smt.Collector.Worker.{
  lose_session, process_state, start_completing, has_device, fail_task, schedule_retry,
  process_uploading, upload_chunks, process_task, give_up,
}
use work_smt.Collector.Models.{
  success, failed, done, ready, discovered, CollectorTaskState, completing, uploading, RetryConfig,
  CollectorConfig, UploadCallResult, CollectorTask,
}
use work_smt.Base.{
  if◌then◌else◌, refl, ◌∙◌, sym, true_ne_false, inr, arith, inl, Bool-cases, ◌↔◌, ◌≢◌, [], true,
  ◌≡◌, ◌∷◌, ℕ, List,
}
use work_smt.Collector.Machine.{status-cases}
use work_smt.Collector.Uploader.{query_progress, upload_chunk, is_success, World}

success_status : (r : UploadCallResult) → r.status ≡ success → is_success r ≡ true
unfolding is_success
success_status r e = ground arith

module _ (w : World) where
  -- The server accepts the chunks one after the other, from state `s` on.
  abbrev pub AllAccepted : CollectorTask → List ℕ → w.State → Type 0
  AllAccepted task [] s = Unit
  AllAccepted task (n ∷ ns) s =
      (is_success (upload_chunk w task n s).0 ≡ true)
      × AllAccepted task ns (upload_chunk w task n s).1

  upload_chunks-AllAccepted :
      (task : CollectorTask) (r : UploadCallResult) (ns : List ℕ) (s : w.State)
      → is_success r ≡ true
      → (is_success (upload_chunks w task r ns s).0 ≡ true) ↔ AllAccepted task ns s
  unfolding upload_chunks
  upload_chunks-AllAccepted task r [] s h = (λ k. tt, λ k. h)
  upload_chunks-AllAccepted task r (n ∷ ns) s h =
      elim (Bool-cases (is_success (upload_chunk w task n s).0)) [
        | inl e ↦
            let i = upload_chunks-AllAccepted task r ns (upload_chunk w task n s).1 h in
            rw (upload_chunks, e) (λ k. (refl, i.0 k), λ k. i.1 k.1)
        | inr e ↦
            rw (upload_chunks, e)
              (λ k. absurd (true_ne_false (sym k ∙ e)), λ k. absurd (true_ne_false (sym k.0)))
      ]

  give_up-state :
      (retry : RetryConfig) (r : UploadCallResult) (task : CollectorTask) (s : w.State)
      → task.state ≡ uploading
      → (give_up w retry r task s).0.state ≢ completing
  unfolding give_up schedule_retry fail_task
  give_up-state retry r task s h = elim (status-cases r.status) [
    | inl e ↦ ground arith
    | inr (inl e) ↦ ground arith
    | inr (inr (inl e)) ↦ ground arith
    | inr (inr (inr e)) ↦ ground arith
  ]

  finished_iff :
      (retry : RetryConfig) (r : UploadCallResult) (task : CollectorTask) (s : w.State)
      → task.state ≡ uploading
      → ((if is_success r then (start_completing task, s) else give_up w retry r task s).0.state
          ≡ completing)
        ↔ (is_success r ≡ true)
  unfolding start_completing
  finished_iff retry r task s h = elim (Bool-cases (is_success r)) [
    | inl e ↦ rw e (λ k. refl, λ k. refl)
    | inr e ↦
        rw e (λ k. absurd (give_up-state retry r task s h k), λ k. absurd (true_ne_false (sym k)))
  ]

  process_uploading-completing_iff :
      (retry : RetryConfig) (task : CollectorTask) (s : w.State)
      → task.state ≡ uploading
      → ((process_uploading w retry task s).0.state ≡ completing) ↔ (
          ((query_progress w task s).0.status ≡ success)
          × AllAccepted task (query_progress w task s).0.missing_chunks (query_progress w task s).1)
  unfolding process_uploading lose_session
  process_uploading-completing_iff retry task s h =
      let (r, next) = query_progress w task s in
      let chunks = upload_chunks w task r r.missing_chunks next in
      let f = finished_iff retry chunks.0 task chunks.1 h in
      elim (status-cases r.status) [
        | inl e ↦
            let a = upload_chunks-AllAccepted task r r.missing_chunks next (success_status r e) in
            rw (process_uploading, e) (λ k. (refl, a.0 (f.0 k)), λ k. f.1 (a.1 k.1))
        | inr (inl e) ↦
            rw (process_uploading, e)
              (λ k. absurd (give_up-state retry r task next h k), λ k. let q = k.0 in cc)
        | inr (inr (inl e)) ↦ rw (process_uploading, e) (λ k. ground arith, λ k. let q = k.0 in cc)
        | inr (inr (inr e)) ↦
            rw (process_uploading, e)
              (λ k. absurd (give_up-state retry r task next h k), λ k. let q = k.0 in cc)
      ]

  process_state-completing_iff :
      (retry : RetryConfig) (task : CollectorTask) (s : w.State) (st : CollectorTaskState)
      → st ≡ uploading
      → task.state ≡ uploading
      → ((process_state w retry task s st).0.state ≡ completing) ↔ (
          ((query_progress w task s).0.status ≡ success)
          × AllAccepted task (query_progress w task s).0.missing_chunks (query_progress w task s).1)
  unfolding process_state
  process_state-completing_iff retry task s discovered e h = cc
  process_state-completing_iff retry task s ready e h = cc
  process_state-completing_iff retry task s uploading e h =
      process_uploading-completing_iff retry task s h
  process_state-completing_iff retry task s completing e h = cc
  process_state-completing_iff retry task s done e h = cc
  process_state-completing_iff retry task s failed e h = cc

  -- When an uploading task of a configured device makes a step, it comes to completing exactly when
  -- the server answers the query of its progress and then accepts every chunk that this answer names
  -- as missing.
  pub process_task-completing_iff :
      (config : CollectorConfig) (task : CollectorTask) (s : w.State)
      → has_device task.device_id config.devices ≡ true
      → task.state ≡ uploading
      → ((process_task w config task s).0.state ≡ completing) ↔ (
          ((query_progress w task s).0.status ≡ success)
          × AllAccepted task (query_progress w task s).0.missing_chunks (query_progress w task s).1)
  unfolding process_task process_uploading
  process_task-completing_iff config task s d h =
      rw (process_task, d) (process_state-completing_iff config.retry task s task.state h h)
