-- ===== src/Parsing/Runtime.antt =====
-- `parseRuntimeLine` of 02_SMT_LogTrace/src/indexing/archive_parser.cpp.
pub mod Fields
use work_smt.Parsing.Models.{
  set_field, refuse_if, field, base_document, ok, fail, ParserState, ParsedDocument, LineView,
  has_field, refused, ArchiveRecord, Checked, Platform, ◌>>=◌, ◌>>◌,
}
use work_smt.Parsing.Utf8.{valid_utf8}
use work_smt.Base.{
  is_empty, zero, ◌++◌, [], ◌==◌, if◌then◌else◌, not, some, ◌||◌, length, ◌∷◌, ◌&&◌, none, false,
  suc, Option, List, Bool, ℕ,
}
use work_smt.Base.Bytes.{bytes_eq, codes, Bytes}

-- `find(c)`: the bytes before the first `c`, and those behind it if there is one.
unfoldable pub split_at : ℕ → Bytes → Bytes × Option Bytes
split_at c [] = ([], none)
split_at c (x ∷ xs) = if x == c then ([], some xs) else (x ∷ (split_at c xs).0, (split_at c xs).1)

unfoldable pub contains_byte : ℕ → Bytes → Bool
contains_byte c [] = false
contains_byte c (x ∷ xs) = x == c || contains_byte c xs

-- One token `key=value` that is not yet in the map.
unfoldable pub add_token : Bytes → List (Bytes × Bytes) → Option (List (Bytes × Bytes))
add_token token fields =
    let (key, behind) = split_at b'=' token in
    elim behind [
      | none ↦ none
      | some value ↦
          if is_empty key || is_empty value || contains_byte b'=' value || has_field key fields
          then none
          else some (set_field key value fields)
    ]

-- The loop over the tokens from `begin` on. A round takes a byte at least.
unfoldable pub parse_fields_from : ℕ → Bytes → List (Bytes × Bytes) → Option (List (Bytes × Bytes))
parse_fields_from zero text fields = none
parse_fields_from (suc fuel) [] fields = some fields
parse_fields_from (suc fuel) (x ∷ text) fields =
    let (token, rest) = split_at b' ' (x ∷ text) in
    elim (add_token token fields) [
      | none ↦ none
      | some added ↦ elim rest [
        | none ↦ some added
        | some behind ↦ parse_fields_from fuel behind added
      ]
    ]

unfoldable pub parse_fields : Bytes → Option (List (Bytes × Bytes))
parse_fields text = parse_fields_from (suc (length text)) text []

unfoldable pub valid_level : Bytes → Bool
valid_level level =
    bytes_eq level (codes "TRACE")
    || bytes_eq level (codes "DEBUG")
    || bytes_eq level (codes "INFO")
    || bytes_eq level (codes "WARN")
    || bytes_eq level (codes "ERROR")
    || bytes_eq level (codes "CRITICAL")

-- A field that is there and is not `expected`.
unfoldable pub mismatches : Bytes → Bytes → List (Bytes × Bytes) → Bool
mismatches key expected fields = has_field key fields && not (bytes_eq (field key fields) expected)

unfoldable pub format_invalid : Bytes
format_invalid = codes "RUNTIME_LOG_FORMAT_INVALID"

unfoldable pub metadata_mismatch : Bytes
metadata_mismatch = codes "RUNTIME_LOG_METADATA_MISMATCH"

unfoldable pub check_fields : ArchiveRecord → List (Bytes × Bytes) → Checked (Unit {0})
check_fields archive fields = do
  refuse_if
      (not (has_field (codes "level") fields)
        || not (has_field (codes "module") fields)
        || not (valid_level (field (codes "level") fields)))
      format_invalid
  refuse_if (mismatches (codes "device") archive.device_id fields) metadata_mismatch
  refuse_if (mismatches (codes "source_device") archive.device_id fields) metadata_mismatch
  refuse_if (mismatches (codes "station") archive.station_id fields) metadata_mismatch
  refuse_if (not (is_empty archive.product_sn) && mismatches (codes "sn") archive.product_sn fields)
      metadata_mismatch

abbrev pub required {ℓ} : {A : Type ℓ} → Option A → Bytes → Checked A
required none code = refused code
required (some a) code = ok a

-- What stands before and behind the first blank.
unfoldable pub split_time : Bytes → Checked (Bytes × Bytes)
split_time text =
    let (time, behind) = split_at b' ' text in
    elim behind [ none ↦ refused format_invalid | some rest ↦ ok (time, rest) ]

module _ (p : Platform) where
  open p use {Instant, parse_iso8601_milliseconds, format_utc_milliseconds}

  unfoldable pub fill_runtime :
      ArchiveRecord → LineView → Instant → List (Bytes × Bytes) → ParsedDocument
  fill_runtime archive line occurred fields = record (base_document archive line) {
    occurred_at = format_utc_milliseconds occurred;
    level = field (codes "level") fields;
    module_name = field (codes "module") fields;
    error_code =
        if not (has_field (codes "code") fields)
          || bytes_eq (field (codes "code") fields) (codes "-")
        then []
        else field (codes "code") fields;
    event_name = field (codes "event") fields;
    product_sn =
        if has_field (codes "sn") fields then field (codes "sn") fields else archive.product_sn;
  }

  unfoldable pub runtime_document : ArchiveRecord → LineView → Checked ParsedDocument
  runtime_document archive line = do
    refuse_if (is_empty line.text) format_invalid
    refuse_if (not (valid_utf8 line.text)) (codes "INVALID_UTF8")
    (time, rest) ← split_time line.text
    occurred ← required (parse_iso8601_milliseconds time) (codes "RUNTIME_LOG_TIME_INVALID")
    fields ← required (parse_fields rest) format_invalid
    check_fields archive fields
    ok (fill_runtime archive line occurred fields)

  unfoldable pub parse_runtime_line : ArchiveRecord → LineView → ParserState → ParserState
  parse_runtime_line archive line state = elim (runtime_document archive line) [
    | refused code ↦ fail state code line.number
    | ok document ↦ record state {
      result = record state.result { documents = state.result.documents ++ document ∷ [] };
    }
  ]
