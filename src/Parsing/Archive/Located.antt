-- ===== src/Parsing/Archive/Located.antt =====
-- Where the documents of an archive stand in the file.
use work_smt.Parsing.Report.{
  strip_bom, parse_fct_line, as_row, complete_header, row_document, parse_columns, parse_header,
  parse_row,
}
use work_smt.Parsing.Csv.{parse_csv_row}
use work_smt.Parsing.Models.{
  ParserProfile, ok, base_document, Checked-cases, ArchiveRecord, Platform, LineView,
  ParsedDocument, fail, ParserState,
}
use work_smt.Base.{
  Bool-cases, refl, inr, Option-cases, All-append, inl, [], sym, false, ◌∙◌, length, true, ◌∷◌,
  arith, ◌≡◌, ◌++◌, All, ◌⊎◌, ◌≢◌, ◌≤◌, subst, ℕ, List,
}
use work_smt.Parsing.Archive.{process_line}
use work_smt.Base.Bytes.{codes, Bytes}
use work_smt.Parsing.Runtime.{fill_runtime, runtime_document, parse_runtime_line, contains_byte}
use work_smt.Parsing.Tokenizer.{tokenize_terms}
use work_smt.Parsing.Utf8.{valid_utf8}

-- The bytes before a line: none, or they end with a line feed.
abbrev pub StartsLine : Bytes → Type 0
StartsLine before = (before ≡ []) ⊎ ((b : Bytes) × (before ≡ b ++ b'\n' ∷ []))

-- Between the text of a line and its end is a carriage return, or the text does not end with one.
abbrev pub IsReturn : Bytes → Bytes → Type 0
IsReturn text back = (back ≡ b'\r' ∷ []) ⊎ ((back ≡ []) × ((b : Bytes) → text ≢ b ++ b'\r' ∷ []))

-- A line ends with a line feed or with the file.
abbrev pub IsFeed : Bytes → Bytes → Type 0
IsFeed feed after = (feed ≡ b'\n' ∷ []) ⊎ ((feed ≡ []) × (after ≡ []))

-- The text is a whole line of the file at the offset, without its line end, and is not too long.
pub record IsLine (max_line_bytes : ℕ) (file text : Bytes) (offset : ℕ) : Type 0 where
  pub before : Bytes
  pub back : Bytes
  pub feed : Bytes
  pub after : Bytes
  pub splits : file ≡ before ++ (text ++ (back ++ (feed ++ after)))
  pub starts : length before ≡ offset
  pub at_start : StartsLine before
  pub is_return : IsReturn text back
  pub is_feed : IsFeed feed after
  pub one_line : contains_byte b'\n' text ≡ false
  pub fits : length text ≤ max_line_bytes

-- The bytes of a document in the file are one whole line of valid text, without its line end.
pub record Located (max_line_bytes : ℕ) (file : Bytes) (d : ParsedDocument) : Type 0 where
  pub text : Bytes
  pub is_line : IsLine max_line_bytes file text d.byte_offset
  pub measures : length text ≡ d.byte_length
  pub is_text : valid_utf8 text ≡ true
  pub counted : d.term_count ≡ length (tokenize_terms text)

pub record LineIn (max_line_bytes : ℕ) (file : Bytes) (line : LineView) : Type 0 where
  pub is_line : IsLine max_line_bytes file line.text line.offset
  pub measures : length line.text ≡ line.length

-- A document made from a line stands where the line does.
of_line :
    (n : ℕ) (file : Bytes) (line : LineView) (d : ParsedDocument)
    → LineIn n file line
    → valid_utf8 line.text ≡ true
    → d.byte_offset ≡ line.offset
    → d.byte_length ≡ line.length
    → d.term_count ≡ length (tokenize_terms line.text)
    → Located n file d
of_line n file line d l v o m t = record {
  text = line.text;
  is_line = subst (IsLine n file line.text) (sym o) l.is_line;
  measures = l.measures ∙ sym m;
  is_text = v;
  counted = t;
}

abbrev pub documents : ParserState → List ParsedDocument
documents state = state.result.documents

pub documents-fail :
    (n : ℕ) (file : Bytes) (state : ParserState) (code : Bytes) (number : ℕ)
    → All (Located n file) (documents state)
    → All (Located n file) (documents (fail state code number))
unfolding fail
documents-fail n file state code number h = ground arith

module _ (p : Platform) (archive : ArchiveRecord) (n : ℕ) (file : Bytes) (line : LineView) where
  runtime_document-Located :
      (d : ParsedDocument)
      → LineIn n file line
      → runtime_document p archive line ≡ ok d
      → Located n file d
  unfolding runtime_document fill_runtime base_document
  runtime_document-Located d l e =
      of_line n file line d l (ground arith) (ground arith) (ground arith) (ground arith)

  runtime-Located :
      (state : ParserState)
      → LineIn n file line
      → All (Located n file) (documents state)
      → All (Located n file) (documents (parse_runtime_line p archive line state))
  unfolding parse_runtime_line
  runtime-Located state l h = elim (Checked-cases (runtime_document p archive line)) [
    | inl (d, e) ↦
        rw (parse_runtime_line, e)
          (All-append (Located n file) (documents state) (d ∷ []) h
            (runtime_document-Located d l e, tt))
    | inr (code, e) ↦ rw (parse_runtime_line, e) (documents-fail n file state code line.number h)
  ]

  row-Located :
      (state : ParserState) (fields : List Bytes)
      → LineIn n file line
      → valid_utf8 line.text ≡ true
      → All (Located n file) (documents state)
      → All (Located n file) (documents (parse_row p archive line fields state))
  unfolding parse_row row_document base_document
  row-Located state fields l v h = elim (Option-cases (as_row fields)) [
    | inl e ↦ rw (parse_row, e) (documents-fail n file state _ line.number h)
    | inr (r, e) ↦
        let d = row_document p archive line state r in
        let added =
          All-append (Located n file) (documents state) (d ∷ []) h
            (of_line n file line d l v refl refl refl, tt) in
        ground
          (arith, e, added, documents-fail n file state (codes "FCT_CSV_ROW_INVALID") line.number h)
  ]

  -- The header lines and the column line add no document.
  header-Located :
      (state : ParserState) (fields : List Bytes)
      → All (Located n file) (documents state)
      → All (Located n file) (documents (parse_header p archive line fields state))
  unfolding parse_header complete_header fail
  header-Located state fields h = ground arith

  columns-Located :
      (state : ParserState) (fields : List Bytes)
      → All (Located n file) (documents state)
      → All (Located n file) (documents (parse_columns p line fields state))
  unfolding parse_columns fail
  columns-Located state fields h = ground arith

  fct-Located :
      (state : ParserState)
      → LineIn n file line
      → All (Located n file) (documents state)
      → All (Located n file) (documents (parse_fct_line p archive line state))
  unfolding parse_fct_line
  fct-Located state l h = elim (Bool-cases (valid_utf8 line.text)) [
    | inr bad ↦ ground (
      arith,
      bad,
      documents-fail n file state (codes "FCT_CSV_FORMAT_INVALID") line.number h,
      documents-fail n file state (codes "INVALID_UTF8") line.number h,
    )
    | inl v ↦ elim (Option-cases (parse_csv_row (strip_bom line.number line.text))) [
      | inl e ↦
          ground (
            arith,
            v,
            e,
            documents-fail n file state (codes "FCT_CSV_FORMAT_INVALID") line.number h,
          )
      | inr (fields, e) ↦ ground (
        arith,
        v,
        e,
        documents-fail n file state (codes "FCT_CSV_FORMAT_INVALID") line.number h,
        header-Located state fields h,
        columns-Located state fields h,
        row-Located state fields l v h,
      )
    ]
  ]

  pub process_line-Located :
      (profile : ParserProfile) (state : ParserState)
      → LineIn n file line
      → All (Located n file) (documents state)
      → All (Located n file) (documents (process_line p archive profile line state))
  unfolding process_line
  process_line-Located profile state l h = ground (
    arith,
    runtime-Located state l h,
    fct-Located state l h,
    documents-fail n file state (codes "PARSER_PROFILE_UNSUPPORTED") 0 h,
  )
