-- ===== src/Parsing/Models.antt =====
-- 02_SMT_LogTrace/include/logtrace/indexing/index_models.h, the local types of archive_parser.cpp,
-- and what that file takes from elsewhere.
use work_smt.Base.{
  refl, inr, inl, ◌⊎◌, ◌≡◌, ◌||◌, Option, false, if◌then◌else◌, true, length, ◌∷◌, List, Bool, [],
  ℕ,
}
use work_smt.Base.Bytes.{bytes_eq, Bytes}
use work_smt.Parsing.Tokenizer.{tokenize_terms}

pub record ArchiveRecord : Type 0 where
  pub archive_id : ℕ
  pub line_id : Bytes
  pub station_id : Bytes
  pub device_id : Bytes
  pub collector_id : Bytes
  pub work_order : Bytes
  pub product_sn : Bytes
  pub file_type : Bytes
  pub original_filename : Bytes
  pub relative_path : Bytes
  pub file_size : ℕ
  pub file_sha256 : Bytes
  pub produced_at : Bytes
  pub archived_at : Bytes

pub record ParserProfile : Type 0 where
  pub name : Bytes
  pub version : ℕ

pub record ParsedDocument : Type 0 where
  pub archive_id : ℕ
  pub byte_offset : ℕ
  pub byte_length : ℕ
  pub occurred_at : Bytes
  pub archived_at : Bytes
  pub line_id : Bytes
  pub station_id : Bytes
  pub device_id : Bytes
  pub collector_id : Bytes
  pub work_order : Bytes
  pub product_sn : Bytes
  pub source_type : Bytes
  pub level : Bytes
  pub module_name : Bytes
  pub error_code : Bytes
  pub event_name : Bytes
  pub term_count : ℕ

pub record ArchiveParseResult : Type 0 where
  pub success : Bool
  pub failure_code : Bytes
  pub failure_line : ℕ
  pub documents : List ParsedDocument

-- A line of the file: its number from 1, and where its bytes stand.
pub record LineView : Type 0 where
  pub number : ℕ
  pub offset : ℕ
  pub length : ℕ
  pub text : Bytes

pub record ParserState : Type 0 where
  pub result : ArchiveParseResult
  pub fct_header : List (Bytes × Bytes)
  pub fct_occurred_at : Bytes
  pub fct_table_header_seen : Bool

-- What the parser calls: times are `parseIso8601Milliseconds` and `formatUtcMilliseconds` of
-- common/time_utils.cpp over the C library's calendar, numbers are `strtod` (the value, the bytes
-- consumed, and whether `errno` stayed 0), `std::isfinite` and `>` on doubles, and the digest is
-- the hexadecimal SHA-256 of OpenSSL.
pub record Platform : Type 1 where
  pub Instant : Type 0
  pub parse_iso8601_milliseconds : Bytes → Option Instant
  pub format_utc_milliseconds : Instant → Bytes
  pub Double : Type 0
  pub strtod : Bytes → Double × ℕ × Bool
  pub is_finite : Double → Bool
  pub greater : Double → Double → Bool
  pub sha256_hex : Bytes → Bytes

-- The fields of a map read as `operator[]` reads them: a missing key is the empty string.
unfoldable pub field : Bytes → List (Bytes × Bytes) → Bytes
field k [] = []
field k (e ∷ m) = if bytes_eq e.0 k then e.1 else field k m

-- `count(key) != 0`.
unfoldable pub has_field : Bytes → List (Bytes × Bytes) → Bool
has_field k [] = false
has_field k (e ∷ m) = bytes_eq e.0 k || has_field k m

-- `fields[key] = value`.
unfoldable pub set_field : Bytes → Bytes → List (Bytes × Bytes) → List (Bytes × Bytes)
set_field k v [] = (k, v) ∷ []
set_field k v (e ∷ m) = if bytes_eq e.0 k then (k, v) ∷ m else e ∷ set_field k v m

-- The value of a step, or the failure code and nothing else.
pub data Checked {ℓ} (A : Type ℓ) : Type ℓ where
  ok : A → Checked A
  refused : Bytes → Checked A

infixl 5 ◌>>=◌ ◌>>◌
abbrev pub ◌>>=◌ {ℓ κ} : {A : Type ℓ} {B : Type κ} → Checked A → (A → Checked B) → Checked B
ok a >>= f = f a
refused c >>= f = refused c

abbrev pub ◌>>◌ {ℓ} : {B : Type ℓ} → Checked (Unit {0}) → Checked B → Checked B
m >> k = m >>= λ _. k

-- `if (test) { fail(code); return; }`.
abbrev pub refuse_if : Bool → Bytes → Checked (Unit {0})
refuse_if true c = refused c
refuse_if false c = ok tt

-- `fail`: the first failure stays, and drops the documents.
unfoldable pub fail : ParserState → Bytes → ℕ → ParserState
fail state code line =
    if state.result.success
    then record state {
      result = record { success = false; failure_code = code; failure_line = line; documents = [] };
    }
    else state

unfoldable pub base_document : ArchiveRecord → LineView → ParsedDocument
base_document archive line = record {
  archive_id = archive.archive_id;
  byte_offset = line.offset;
  byte_length = line.length;
  occurred_at = [];
  archived_at = archive.archived_at;
  line_id = archive.line_id;
  station_id = archive.station_id;
  device_id = archive.device_id;
  collector_id = archive.collector_id;
  work_order = archive.work_order;
  product_sn = archive.product_sn;
  source_type = archive.file_type;
  level = [];
  module_name = [];
  error_code = [];
  event_name = [];
  term_count = length (tokenize_terms line.text);
}

pub Checked-cases {ℓ} :
    {A : Type ℓ} (c : Checked A) → ((a : A) × (c ≡ ok a)) ⊎ ((code : Bytes) × (c ≡ refused code))
Checked-cases (ok a) = inl (a, refl)
Checked-cases (refused code) = inr (code, refl)
