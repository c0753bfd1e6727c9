-- ===== src/Parsing/Report.antt =====
-- `parseFctLine` of 02_SMT_LogTrace/src/indexing/archive_parser.cpp.
use work_smt.Base.{
  leb, ◌++◌, length, some, false, ◌&&◌, ◌||◌, true, [], is_empty, none, ◌∷◌, ◌==◌, not,
  if◌then◌else◌, Option, Bool, ℕ, List,
}
use work_smt.Parsing.Csv.{parse_csv_row}
use work_smt.Parsing.Models.{
  set_field, field, base_document, ParsedDocument, fail, ParserState, LineView, ArchiveRecord,
  Platform,
}
use work_smt.Parsing.Utf8.{valid_utf8}
use work_smt.Base.Bytes.{bytes_eq, codes, Bytes}

-- `parseFiniteNumber`: the whole string is a number in range.
unfoldable pub parse_finite_number : (p : Platform) → Bytes → Option p.Double
parse_finite_number p value =
    let (number, consumed, in_range) = p.strtod value in
    if is_empty value
    then none
    else if in_range && consumed == length value && p.is_finite number
    then some number
    else none

unfoldable pub is_finite_number : Platform → Bytes → Bool
is_finite_number p value = elim (parse_finite_number p value) [ none ↦ false | some number ↦ true ]

-- The byte order mark of the first line.
unfoldable pub strip_bom : ℕ → Bytes → Bytes
strip_bom number (a ∷ b ∷ c ∷ text) =
    if number == 1 && a == 0xEF && b == 0xBB && c == 0xBF then text else a ∷ b ∷ c ∷ text
strip_bom number text = text

-- `kHeaderKeys`, by line number.
unfoldable pub header_key : ℕ → Bytes
header_key number =
    if number == 1
    then codes "ReportVersion"
    else if number == 2
    then codes "DeviceId"
    else if number == 3
    then codes "WorkOrder"
    else if number == 4
    then codes "ProductSN"
    else if number == 5
    then codes "TestedAt"
    else codes "OverallResult"

-- `kColumns`.
abbrev pub columns : List Bytes
columns =
    codes "TestPoint"
    ∷ codes "TestName"
    ∷ codes "LowerLimit"
    ∷ codes "UpperLimit"
    ∷ codes "Measured"
    ∷ codes "Unit"
    ∷ codes "Result"
    ∷ []

unfoldable pub rows_eq : List Bytes → List Bytes → Bool
rows_eq [] [] = true
rows_eq (x ∷ xs) (y ∷ ys) = bytes_eq x y && rows_eq xs ys
rows_eq _ _ = false

pub record Row : Type 0 where
  pub test_point : Bytes
  pub test_name : Bytes
  pub lower_limit : Bytes
  pub upper_limit : Bytes
  pub measured : Bytes
  pub measure_unit : Bytes
  pub result : Bytes

-- The seven fields of a row; `none` if there are not seven.
unfoldable pub as_row : List Bytes → Option Row
as_row (a ∷ b ∷ c ∷ d ∷ e ∷ f ∷ g ∷ []) = some (record {
  test_point = a;
  test_name = b;
  lower_limit = c;
  upper_limit = d;
  measured = e;
  measure_unit = f;
  result = g;
})
as_row _ = none

-- The two fields of a header line.
unfoldable pub as_pair : List Bytes → Option (Bytes × Bytes)
as_pair (a ∷ b ∷ []) = some (a, b)
as_pair _ = none

-- An expected value that is known and differs.
unfoldable pub differs : Bytes → Bytes → Bool
differs expected value = not (is_empty expected) && not (bytes_eq value expected)

unfoldable pub is_result : Bytes → Bool
is_result value = bytes_eq value (codes "PASS") || bytes_eq value (codes "NG")

module _ (p : Platform) where
  -- The sixth header line completes the header; it sets the time of the report.
  unfoldable pub complete_header : ArchiveRecord → LineView → ParserState → ParserState
  complete_header archive line state =
      let header = state.fct_header in
      let bad = fail state (codes "FCT_CSV_METADATA_MISMATCH") line.number in
      if not (bytes_eq (field (codes "DeviceId") header) archive.device_id)
        || not (bytes_eq (field (codes "ReportVersion") header) (codes "1.2"))
        || differs archive.work_order (field (codes "WorkOrder") header)
        || differs archive.product_sn (field (codes "ProductSN") header)
      then bad
      else (elim (p.parse_iso8601_milliseconds (field (codes "TestedAt") header)) [
        | none ↦ bad
        | some occurred ↦
            if not (is_result (field (codes "OverallResult") header))
            then bad
            else record state { fct_occurred_at = p.format_utc_milliseconds occurred }
      ])

  unfoldable pub parse_header : ArchiveRecord → LineView → List Bytes → ParserState → ParserState
  parse_header archive line fields state = elim (as_pair fields) [
    | none ↦ fail state (codes "FCT_CSV_HEADER_INVALID") line.number
    | some (key, value) ↦
        if not (bytes_eq key (header_key line.number)) || is_empty value
        then fail state (codes "FCT_CSV_HEADER_INVALID") line.number
        else if line.number == 6
        then complete_header archive line
            (record state { fct_header = set_field key value state.fct_header })
        else record state { fct_header = set_field key value state.fct_header }
  ]

  -- The limits are numbers in order, the measurement is a number, and no column is empty.
  unfoldable pub valid_row : Row → Bool
  valid_row r = elim (parse_finite_number p r.lower_limit) [
    | none ↦ false
    | some low ↦ elim (parse_finite_number p r.upper_limit) [
      | none ↦ false
      | some high ↦
          not (is_empty r.test_point)
          && not (is_empty r.test_name)
          && not (is_empty r.measured)
          && not (is_empty r.measure_unit)
          && is_finite_number p r.measured
          && not (p.greater low high)
          && is_result r.result
    ]
  ]

  unfoldable pub row_document : ArchiveRecord → LineView → ParserState → Row → ParsedDocument
  row_document archive line state r =
      let ng = bytes_eq r.result (codes "NG") in
      record (base_document archive line) {
        occurred_at = state.fct_occurred_at;
        work_order = field (codes "WorkOrder") state.fct_header;
        product_sn = field (codes "ProductSN") state.fct_header;
        level = if ng then codes "ERROR" else codes "INFO";
        module_name = codes "fct";
        error_code = if ng then codes "FCT_LIMIT_FAIL" else [];
        event_name = r.test_point ++ b':' ∷ r.test_name;
      }

  unfoldable pub parse_row : ArchiveRecord → LineView → List Bytes → ParserState → ParserState
  parse_row archive line fields state =
      let bad = fail state (codes "FCT_CSV_ROW_INVALID") line.number in
      elim (as_row fields) [
        | none ↦ bad
        | some r ↦
            if not state.fct_table_header_seen || not (valid_row r) then bad else record state {
              result = record state.result {
                documents = state.result.documents ++ row_document archive line state r ∷ [];
              };
            }
      ]

  unfoldable pub parse_columns : LineView → List Bytes → ParserState → ParserState
  parse_columns line fields state =
      if rows_eq fields columns
      then record state { fct_table_header_seen = true }
      else fail state (codes "FCT_CSV_HEADER_INVALID") line.number

  unfoldable pub parse_fct_line : ArchiveRecord → LineView → ParserState → ParserState
  parse_fct_line archive line state =
      if is_empty line.text
      then fail state (codes "FCT_CSV_FORMAT_INVALID") line.number
      else if not (valid_utf8 line.text)
      then fail state (codes "INVALID_UTF8") line.number
      else (elim (parse_csv_row (strip_bom line.number line.text)) [
        | none ↦ fail state (codes "FCT_CSV_FORMAT_INVALID") line.number
        | some fields ↦
            if leb line.number 6
            then parse_header archive line fields state
            else if line.number == 7
            then parse_columns line fields state
            else parse_row archive line fields state
      ])
