-- ===== src/Parsing/Csv.antt =====
-- `parseCsvRow` of 02_SMT_LogTrace/src/indexing/archive_parser.cpp.
pub mod RoundTrip
use work_smt.Base.{false, is_empty, true, ◌==◌, none, ◌∷◌, ◌++◌, some, [], List, Option, ℕ}
use work_smt.Base.Bytes.{Bytes}

-- The flags `quoted` and `quote_closed`, of which one at most is set.
pub data CsvMode : Type 0 where
  bare quoted quote_closed : CsvMode

-- The loop over the row, with the field read so far and the fields behind it; `none` is a refusal.
unfoldable pub parse_csv_from : CsvMode → Bytes → List Bytes → Bytes → Option (List Bytes)
parse_csv_from bare field fields [] = some (fields ++ field ∷ [])
parse_csv_from quoted field fields [] = none
parse_csv_from quote_closed field fields [] = some (fields ++ field ∷ [])
parse_csv_from quoted field fields (value ∷ []) = elim (value == b'"') [
  | true ↦ parse_csv_from quote_closed field fields []
  | false ↦ parse_csv_from quoted (field ++ value ∷ []) fields []
]
parse_csv_from quoted field fields (value ∷ next ∷ line) = elim (value == b'"') [
  | true ↦ elim (next == b'"') [
    | true ↦ parse_csv_from quoted (field ++ b'"' ∷ []) fields line
    | false ↦ parse_csv_from quote_closed field fields (next ∷ line)
  ]
  | false ↦ parse_csv_from quoted (field ++ value ∷ []) fields (next ∷ line)
]
parse_csv_from quote_closed field fields (value ∷ line) = elim (value == b',') [
  | true ↦ parse_csv_from bare [] (fields ++ field ∷ []) line
  | false ↦ none
]
parse_csv_from bare field fields (value ∷ line) = elim (value == b',') [
  | true ↦ parse_csv_from bare [] (fields ++ field ∷ []) line
  | false ↦ elim (value == b'"') [
    | true ↦ elim (is_empty field) [ true ↦ parse_csv_from quoted field fields line | false ↦ none ]
    | false ↦ parse_csv_from bare (field ++ value ∷ []) fields line
  ]
]

unfoldable pub parse_csv_row : Bytes → Option (List Bytes)
parse_csv_row = parse_csv_from bare [] []
