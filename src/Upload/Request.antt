-- ===== src/Upload/Request.antt =====
-- 01_SMT_DataStream/src/upload/upload_model.cpp: the checks of `parseCreateUploadRequest` on the values
-- of a request whose JSON has the expected fields and types, and isSmtIdentifier of
-- src/common/validation.cpp. A JSON null is `none`. The reading of a time is the parameter
-- `valid_time`.
pub mod Accepts
use work_smt.Base.{
  ◌/◌, drop, [], suc, map, ◌∷◌, ◌==◌, some, is_empty, ◌%◌, ◌||◌, ltb, true, ◌&&◌, within, false,
  if◌then◌else◌, none, ◌+◌, length, not, Option, Bool, ℕ, List,
}
use work_smt.Parsing.Tokenizer.{to_lower}
use work_smt.Upload.Numbers.{uint64_max, uint64_size}
use work_smt.Base.Bytes.{codes, bytes_eq, Bytes}

pub record UploadConfig : Type 0 where
  pub min_chunk_size_bytes : ℕ
  pub max_chunk_size_bytes : ℕ
  pub max_file_size_bytes : ℕ

pub record RequestFields : Type 0 where
  pub station_id : Bytes
  pub collector_id : Bytes
  pub work_order : Option Bytes
  pub product_sn : Option Bytes
  pub file_type : Bytes
  pub result : Option Bytes
  pub original_filename : Bytes
  pub file_size : ℕ
  pub file_sha256 : Bytes
  pub chunk_size : ℕ
  pub produced_at : Bytes

-- A refusal has the error message. An accepted request has its extension and its chunk count, the
-- fields of `CreateUploadRequest` that are not copies of the request's.
pub data Verdict : Type 0 where
  refused : Bytes → Verdict
  accepted : Bytes → ℕ → Verdict

abbrev pub every : (ℕ → Bool) → Bytes → Bool
every p [] = true
every p (c ∷ cs) = p c && every p cs

unfoldable pub is_printable_ascii : Bytes → ℕ → Bool
is_printable_ascii value maximum =
    not (is_empty value || ltb maximum (length value)) && every (within 0x20 0x7e) value

unfoldable pub is_lower_hex : Bytes → Bool
is_lower_hex value =
    length value == 64 && every (λ c. within b'0' b'9' c || within b'a' b'f' c) value

unfoldable pub valid_filename : Bytes → Bool
valid_filename value =
    not (is_empty value || ltb 255 (length value))
    && every (λ c. not (ltb c 0x20 || c == 0x7f || c == b'/' || c == b'\\')) value

unfoldable pub is_smt_identifier : Bytes → Bool
is_smt_identifier value =
    within 2 64 (length value)
    && every (λ c. within b'A' b'Z' c || within b'0' b'9' c || c == b'_' || c == b'-') value

-- `rfind('.')`.
unfoldable pub last_dot : Bytes → Option ℕ
last_dot [] = none
last_dot (c ∷ cs) = elim (last_dot cs) [
  | some i ↦ some (suc i)
  | none ↦ if c == b'.' then some 0 else none
]

abbrev pub one_of : List Bytes → Bytes → Bool
one_of [] value = false
one_of (v ∷ vs) value = bytes_eq v value || one_of vs value

-- The table `allowed`; a type that is not in it allows nothing.
unfoldable pub allowed : Bytes → List Bytes
allowed file_type =
    if bytes_eq file_type (codes "DETECTION_RESULT")
    then codes "json" ∷ codes "csv" ∷ []
    else if bytes_eq file_type (codes "TEST_REPORT")
    then codes "csv" ∷ []
    else if bytes_eq file_type (codes "NG_IMAGE")
    then codes "png" ∷ codes "jpg" ∷ codes "jpeg" ∷ []
    else if bytes_eq file_type (codes "DEVICE_EXPORT")
    then codes "zip" ∷ codes "pdf" ∷ []
    else if bytes_eq file_type (codes "RUNTIME_LOG")
    then codes "log" ∷ codes "txt" ∷ []
    else []

unfoldable pub extension_for : Bytes → Bytes → Option Bytes
extension_for filename file_type = elim (last_dot filename) [
  | none ↦ none
  | some dot ↦
      let extension = map to_lower (drop (dot + 1) filename) in
      if dot == 0 || dot + 1 == length filename
      then none
      else if one_of (allowed file_type) extension
      then some extension
      else none
]

unfoldable pub given : Option Bytes → Bool
given none = false
given (some v) = true

unfoldable pub check_given : (Bytes → Bool) → Option Bytes → Bool
check_given p none = true
check_given p (some v) = p v

unfoldable pub business_invalid : RequestFields → Bool
business_invalid r =
    not (check_given (λ v. is_printable_ascii v 64) r.work_order)
    || not (check_given (λ v. is_printable_ascii v 96) r.product_sn)
    || not (check_given (λ v. bytes_eq v (codes "PASS") || bytes_eq v (codes "NG")) r.result)

-- Trace files and images name their product and their result, and the result of an image is NG.
unfoldable pub metadata_incomplete : RequestFields → Bool
metadata_incomplete r =
    let known = given r.product_sn && given r.result in
    let trace =
      bytes_eq r.file_type (codes "DETECTION_RESULT")
      || bytes_eq r.file_type (codes "TEST_REPORT") in
    (trace && not known)
    || (bytes_eq r.file_type (codes "NG_IMAGE")
        && (not known || not (check_given (λ v. bytes_eq v (codes "NG")) r.result)))

-- `(file_size + chunk_size - 1) / chunk_size` in 64 bits.
unfoldable pub chunk_count_of : ℕ → ℕ → ℕ
chunk_count_of file_size chunk_size =
    (((file_size + chunk_size) % uint64_size + uint64_max) % uint64_size) / chunk_size

module _ (valid_time : Bytes → Bool) where
  unfoldable pub value_invalid : UploadConfig → RequestFields → Bool
  value_invalid config r =
      not (is_smt_identifier r.station_id)
      || not (is_smt_identifier r.collector_id)
      || not (valid_filename r.original_filename)
      || not (is_lower_hex r.file_sha256)
      || not (valid_time r.produced_at)
      || r.file_size == 0
      || ltb r.chunk_size config.min_chunk_size_bytes

  unfoldable pub check_request : UploadConfig → RequestFields → Verdict
  check_request config r = elim (ltb config.max_file_size_bytes r.file_size) [
    | true ↦ refused (codes "file_size exceeds the configured limit")
    | false ↦ elim (ltb config.max_chunk_size_bytes r.chunk_size) [
      | true ↦ refused (codes "chunk_size exceeds the configured limit")
      | false ↦ elim (value_invalid config r) [
        | true ↦ refused (codes "upload field value is invalid")
        | false ↦ elim (extension_for r.original_filename r.file_type) [
          | none ↦ refused (codes "upload field value is invalid")
          | some extension ↦ elim (business_invalid r) [
            | true ↦ refused (codes "upload business field is invalid")
            | false ↦ elim (metadata_incomplete r) [
              | true ↦ refused (codes "file type metadata is incomplete")
              | false ↦ accepted extension (chunk_count_of r.file_size r.chunk_size)
            ]
          ]
        ]
      ]
    ]
  ]
