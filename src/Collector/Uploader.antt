-- ===== src/Collector/Uploader.antt =====
-- 01_SMT_DataStream/src/collector/http_uploader.cpp: the calls to the server and how their answers
-- are read. The network, the clock and the signature are the parameter `send`, which gives a call's
-- response and the next state of the outside world.
use work_smt.Collector.Models.{
  success, session_missing, retryable, permanent_failure, CollectorTask, UploadCallResult,
  UploadCallStatus,
}
use work_smt.Base.Bytes.{bytes_eq, codes, Bytes}
use work_smt.Base.{
  false, is_empty, ◌==◌, ◌||◌, true, not, ◌&&◌, leb, ltb, if◌then◌else◌, [], some, ◌∷◌, Bool, none,
  ℕ, Option, List,
}

-- The members of the JSON object `data`; `none` where one is absent or of another type. An element
-- `none` of `missing_chunks` is not an unsigned number.
pub record ResponseData : Type 0 where
  pub upload_id : Option Bytes
  pub chunk_size : Option ℕ
  pub chunk_count : Option ℕ
  pub missing_chunks : Option (List (Option ℕ))
  pub archive_id : Option ℕ

pub data Response : Type 0 where
  no_response : Response
  -- The body is no JSON object with a string `code` and a member `data`.
  malformed : Response
  -- The status, the code, and `data` if it is an object.
  answered : ℕ → Bytes → Option ResponseData → Response

pub data Call : Type 0 where
  create_call : CollectorTask → Call
  progress_call : Bytes → Call
  -- The upload, the number of the chunk and its bytes.
  chunk_call : Bytes → ℕ → Bytes → Call
  complete_call : Bytes → Call

unfoldable pub empty_result : UploadCallStatus → Bytes → UploadCallResult
empty_result status code = record {
  status = status;
  error_code = code;
  upload_id = [];
  chunk_size = 0;
  chunk_count = 0;
  missing_chunks = [];
  archive_id = 0;
}

-- `std::set::insert`.
unfoldable pub insert_chunk : ℕ → List ℕ → List ℕ
insert_chunk n [] = n ∷ []
insert_chunk n (m ∷ ms) = elim (ltb n m) [
  | true ↦ n ∷ m ∷ ms
  | false ↦ elim (n == m) [ true ↦ m ∷ ms | false ↦ m ∷ insert_chunk n ms ]
]

unfoldable pub collect_chunks : List ℕ → List (Option ℕ) → Option (List ℕ)
collect_chunks chunks [] = some chunks
collect_chunks chunks (none ∷ rest) = none
collect_chunks chunks (some n ∷ rest) = collect_chunks (insert_chunk n chunks) rest

unfoldable pub or_else : {A : Type 0} → A → Option A → A
or_else a none = a
or_else a (some b) = b

unfoldable pub read_data : Bytes → ResponseData → UploadCallResult
read_data code d = elim (collect_chunks [] (or_else [] d.missing_chunks)) [
  | none ↦ empty_result permanent_failure (codes "INVALID_SERVER_RESPONSE")
  | some chunks ↦ record {
    status = success;
    error_code = code;
    upload_id = or_else [] d.upload_id;
    chunk_size = or_else 0 d.chunk_size;
    chunk_count = or_else 0 d.chunk_count;
    missing_chunks = chunks;
    archive_id = or_else 0 d.archive_id;
  }
]

unfoldable pub is_retryable : ℕ → Bytes → Bool
is_retryable status code =
    leb 500 status
    || bytes_eq code (codes "UPLOAD_LIMIT_EXCEEDED")
    || bytes_eq code (codes "CHUNKS_INCOMPLETE")

unfoldable pub read_response : Response → UploadCallResult
read_response no_response = empty_result retryable (codes "NETWORK_ERROR")
read_response malformed = empty_result permanent_failure (codes "INVALID_SERVER_RESPONSE")
read_response (answered status code data_member) = elim (is_retryable status code) [
  | true ↦ empty_result retryable code
  | false ↦ elim (status == 404 && bytes_eq code (codes "UPLOAD_NOT_FOUND")) [
    | true ↦ empty_result session_missing code
    | false ↦ elim (ltb status 200 || leb 300 status) [
      | true ↦ empty_result permanent_failure code
      | false ↦ elim data_member [
        | none ↦ empty_result permanent_failure (codes "INVALID_SERVER_RESPONSE")
        | some d ↦ read_data code d
      ]
    ]
  ]
]

unfoldable pub is_success : UploadCallResult → Bool
is_success r = elim r.status [
  | success ↦ true
  | retryable ↦ false
  | session_missing ↦ false
  | permanent_failure ↦ false
]

unfoldable pub invalid_response : UploadCallResult
invalid_response = empty_result permanent_failure (codes "INVALID_SERVER_RESPONSE")

-- The outside world: the answer to each call, the bytes of a chunk of a payload, `none` when they
-- cannot be read, and the time in milliseconds. A call and a reading of the clock give the next state.
pub record World : Type 1 where
  pub State : Type 0
  pub send : Call → State → Response × State
  pub read_chunk : CollectorTask → ℕ → State → Option Bytes
  pub clock : State → ℕ × State

module _ (w : World) where
  unfoldable pub request : Call → w.State → UploadCallResult × w.State
  request call s = let (response, next) = w.send call s in (read_response response, next)

  unfoldable pub create_session : CollectorTask → w.State → UploadCallResult × w.State
  create_session task s =
      let (r, next) = request (create_call task) s in
      (
        if is_success r && (is_empty r.upload_id || r.chunk_size == 0 || r.chunk_count == 0)
            then invalid_response
            else r,
        next,
      )

  unfoldable pub query_progress : CollectorTask → w.State → UploadCallResult × w.State
  query_progress task s =
      let (r, next) = request (progress_call task.upload_id) s in
      (
        if is_success r && not (r.chunk_count == task.chunk_count) then invalid_response else r,
        next,
      )

  unfoldable pub upload_chunk : CollectorTask → ℕ → w.State → UploadCallResult × w.State
  upload_chunk task n s = elim (w.read_chunk task n s) [
    | none ↦ (empty_result permanent_failure (codes "LOCAL_PAYLOAD_IO_ERROR"), s)
    | some body ↦ request (chunk_call task.upload_id n body) s
  ]

  unfoldable pub complete : CollectorTask → w.State → UploadCallResult × w.State
  complete task s =
      let (r, next) = request (complete_call task.upload_id) s in
      (if is_success r && r.archive_id == 0 then invalid_response else r, next)
