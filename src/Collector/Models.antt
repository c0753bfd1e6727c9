-- ===== src/Collector/Models.antt =====
-- 01_SMT_DataStream/include/datastream/collector: the persistent task (spool_store.h), the result of
-- an upload call (http_uploader.h) and the parts of the configuration that the worker reads.
-- Times, sizes and counters are non-negative in every state the collector writes.
use work_smt.Base.Bytes.{Bytes}
use work_smt.Base.{List, ℕ}

pub data CollectorTaskState : Type 0 where
  discovered : CollectorTaskState
  ready : CollectorTaskState
  uploading : CollectorTaskState
  completing : CollectorTaskState
  done : CollectorTaskState
  failed : CollectorTaskState

pub record CollectorTask : Type 0 where
  pub task_id : Bytes
  pub source_path : Bytes
  pub payload_path : Bytes
  pub line_id : Bytes
  pub station_id : Bytes
  pub device_id : Bytes
  pub collector_id : Bytes
  pub work_order : Bytes
  pub product_sn : Bytes
  pub file_type : Bytes
  pub result : Bytes
  pub original_filename : Bytes
  pub produced_at : Bytes
  pub file_size : ℕ
  pub source_mtime_ns : ℕ
  pub file_sha256 : Bytes
  pub state : CollectorTaskState
  pub upload_id : Bytes
  pub chunk_size : ℕ
  pub chunk_count : ℕ
  pub retry_attempts : ℕ
  pub next_attempt_milliseconds : ℕ
  pub last_error : Bytes
  pub archive_id : ℕ

pub data UploadCallStatus : Type 0 where
  success : UploadCallStatus
  retryable : UploadCallStatus
  session_missing : UploadCallStatus
  permanent_failure : UploadCallStatus

pub record UploadCallResult : Type 0 where
  pub status : UploadCallStatus
  pub error_code : Bytes
  pub upload_id : Bytes
  pub chunk_size : ℕ
  pub chunk_count : ℕ
  pub missing_chunks : List ℕ
  pub archive_id : ℕ

pub record RetryConfig : Type 0 where
  pub max_backoff_steps : ℕ
  pub base_delay_ms : ℕ
  pub max_delay_ms : ℕ

-- The device ids stand for `CollectorDeviceConfig`, whose other fields only sign the requests.
pub record CollectorConfig : Type 0 where
  pub devices : List Bytes
  pub retry : RetryConfig
