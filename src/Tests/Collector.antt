-- ===== src/Tests/Collector.antt =====
-- Tasks and a server that answers in a fixed way.
use work_smt.Collector.Uploader.{
  Call, is_success, is_retryable, or_else, insert_chunk, collect_chunks, read_data, no_response,
  read_response, complete_call, chunk_call, request, progress_call, upload_chunk, query_progress,
  answered, create_call, Response, World,
}
use work_smt.Base.{
  arith, ◌+◌, ◌≤◌, ◌-◌, none, ◌^◌, refl, ◌↔◌, ◌*◌, some, suc, [], true, ◌∷◌, ◌≡◌, ℕ,
}
use work_smt.Collector.Backoff.{schedule_retry_lem}
use work_smt.Collector.Chunks.{process_task-completing_iff, AllAccepted}
use work_smt.Collector.Worker.{
  upload_chunks, process_tasks, process_uploading, fail_task, process_state, has_device,
  schedule_retry, process_task,
}
use work_smt.Collector.Rounds.{process_tasks-Round, Round}
use work_smt.Collector.Models.{success, uploading, completing, CollectorConfig, CollectorTask}
use Prim.Native.Nat.{min}
use work_smt.Base.Bytes.{codes}

abbrev task : CollectorTask
task = record {
  task_id = codes "t1";
  source_path = codes "/in/a.csv";
  payload_path = codes "/spool/t1";
  line_id = codes "L1";
  station_id = codes "S1";
  device_id = codes "D1";
  collector_id = codes "C1";
  work_order = [];
  product_sn = codes "P1";
  file_type = codes "TEST_REPORT";
  result = codes "PASS";
  original_filename = codes "a.csv";
  produced_at = [];
  file_size = 10;
  source_mtime_ns = 5;
  file_sha256 = codes "ab";
  state = uploading;
  upload_id = codes "u1";
  chunk_size = 8;
  chunk_count = 2;
  retry_attempts = 2;
  next_attempt_milliseconds = 0;
  last_error = [];
  archive_id = 0;
}

abbrev config : CollectorConfig
config = record {
  devices = codes "D0" ∷ codes "D1" ∷ [];
  retry = record { max_backoff_steps = 5; base_delay_ms = 100; max_delay_ms = 300 };
}

abbrev answer : Call → Response
answer (create_call t) = answered 503 (codes "OK") none
answer (progress_call u) = answered 200 (codes "OK") (
    some (record {
      upload_id = some u;
      chunk_size = some 8;
      chunk_count = some 2;
      missing_chunks = some (some 1 ∷ some 0 ∷ []);
      archive_id = none;
    }))
answer (chunk_call u n b) = answered 200 (codes "OK") (
    some (record {
      upload_id = none;
      chunk_size = none;
      chunk_count = none;
      missing_chunks = none;
      archive_id = none;
    }))
answer (complete_call u) = no_response

-- The state of the world is the number of calls made.
abbrev world : World
world = record {
  State = ℕ;
  send = λ call s. (answer call, suc s);
  read_chunk = λ t n s. some (codes "payload");
  clock = λ s. (1000 + s, s + 1);
}

round_test : (process_task world config task 0).1 ≡ 3
unfolding process_task process_state process_uploading query_progress upload_chunks upload_chunk
    request read_response read_data collect_chunks insert_chunk or_else is_retryable is_success
    has_device
round_test = refl

process_tasks-Round_example :
    Round world config 1000
      (task ∷ fail_task (codes "E") task ∷ [])
      1
      (process_tasks world config (task ∷ fail_task (codes "E") task ∷ []) 0).0
      (process_tasks world config (task ∷ fail_task (codes "E") task ∷ []) 0).1
process_tasks-Round_example =
    process_tasks-Round world config (task ∷ fail_task (codes "E") task ∷ []) 0

device-known : has_device task.device_id config.devices ≡ true
unfolding has_device
device-known = refl

process_task-completing_iff_example : ((process_task world config task 0).0.state ≡ completing) ↔ (
    ((query_progress world task 0).0.status ≡ success)
    × AllAccepted world task
        (query_progress world task 0).0.missing_chunks
        (query_progress world task 0).1)
process_task-completing_iff_example =
    process_task-completing_iff world config task 0 device-known refl

schedule_retry_lem_example :
    let t = schedule_retry config.retry 1000 (codes "NETWORK_ERROR") task in
    let delay = min (100 * 2 ^ (t.retry_attempts - 1)) 300 in
    (1 ≤ t.retry_attempts)
    × (t.retry_attempts ≤ 5)
    × (t.next_attempt_milliseconds ≡ 1000 + delay)
    × (100 ≤ delay)
    × (t.state ≡ uploading)
    × (t.upload_id ≡ codes "u1")
schedule_retry_lem_example =
    schedule_retry_lem config.retry 1000 (codes "NETWORK_ERROR") task (omega arith) (omega arith)
