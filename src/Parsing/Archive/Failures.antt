-- ===== src/Parsing/Archive/Failures.antt =====
-- A failed parse keeps no document.
use work_smt.Parsing.Archive.{strip_return, Reader, read_bytes, process_line, end_line, read_byte}
use work_smt.Base.Bytes.{codes, Bytes}
use work_smt.Parsing.Report.{
  strip_bom, complete_header, parse_fct_line, parse_row, parse_header, parse_columns,
}
use work_smt.Base.{
  length, inl, ltb, [], inr, ◌||◌, ◌∷◌, Option-cases, Bool-cases, List, true, arith, is_empty, ℕ,
  false, ◌≡◌,
}
use work_smt.Parsing.Csv.{parse_csv_row}
use work_smt.Parsing.Runtime.{parse_runtime_line}
use work_smt.Parsing.Models.{LineView, ParserProfile, ArchiveRecord, fail, ParserState, Platform}

-- A state that has failed holds no document.
abbrev pub IsClean : ParserState → Type 0
IsClean state = state.result.success ≡ false → is_empty state.result.documents ≡ true

pub fail-IsClean :
    (state : ParserState) (code : Bytes) (n : ℕ) → IsClean state → IsClean (fail state code n)
unfolding fail
fail-IsClean state code n h e = ground (arith, h)

module _ (p : Platform) (archive : ArchiveRecord) (line : LineView) where
  runtime-IsClean :
      (state : ParserState)
      → state.result.success ≡ true
      → IsClean (parse_runtime_line p archive line state)
  unfolding parse_runtime_line fail
  runtime-IsClean state h e = ground arith

  row-IsClean :
      (fields : List Bytes) (state : ParserState)
      → state.result.success ≡ true
      → IsClean (parse_row p archive line fields state)
  unfolding parse_row fail
  row-IsClean fields state h e = ground arith

  header-IsClean :
      (fields : List Bytes) (state : ParserState)
      → state.result.success ≡ true
      → IsClean (parse_header p archive line fields state)
  unfolding parse_header complete_header fail
  header-IsClean fields state h e = ground arith

  columns-IsClean :
      (fields : List Bytes) (state : ParserState)
      → state.result.success ≡ true
      → IsClean (parse_columns p line fields state)
  unfolding parse_columns fail
  columns-IsClean fields state h e = ground arith

  fct-IsClean :
      (state : ParserState)
      → state.result.success ≡ true
      → IsClean (parse_fct_line p archive line state)
  unfolding parse_fct_line fail
  fct-IsClean state h e = elim (Option-cases (parse_csv_row (strip_bom line.number line.text))) [
    | inl r ↦ ground (arith, r)
    | inr (fields, r) ↦ ground (
      arith,
      r,
      header-IsClean fields state h,
      columns-IsClean fields state h,
      row-IsClean fields state h,
    )
  ]

  process_line-IsClean :
      (profile : ParserProfile) (state : ParserState)
      → IsClean state
      → IsClean (process_line p archive profile line state)
  unfolding process_line
  process_line-IsClean profile state c = elim (Bool-cases state.result.success) [
    | inr bad ↦ λ e. ground (arith, bad, c bad)
    | inl good ↦ λ e. ground (
      arith,
      good,
      runtime-IsClean state good,
      fct-IsClean state good,
      fail-IsClean state (codes "PARSER_PROFILE_UNSUPPORTED") 0 c,
    )
  ]

module _ (p : Platform) (archive : ArchiveRecord) (profile : ParserProfile)
    (max_line_bytes : ℕ) where
  pub end_line-IsClean :
      (r : Reader) → IsClean r.state → IsClean (end_line p archive profile max_line_bytes r)
  unfolding end_line
  end_line-IsClean r c =
      elim (Bool-cases (r.line_overflow || ltb max_line_bytes (length (strip_return r.line)))) [
        | inl long ↦
            rw (end_line, long) (fail-IsClean r.state (codes "LINE_TOO_LONG") r.line_number c)
        | inr short ↦ rw (end_line, short) (process_line-IsClean p archive _ profile r.state c)
      ]

  read_byte-IsClean :
      (r : Reader) (byte : ℕ)
      → IsClean r.state
      → IsClean (read_byte p archive profile max_line_bytes r byte).state
  unfolding read_byte
  read_byte-IsClean r byte c e = ground (arith, end_line-IsClean r c, c)

  pub read_bytes-IsClean :
      (bytes : Bytes) (r : Reader)
      → IsClean r.state
      → IsClean (read_bytes p archive profile max_line_bytes r bytes).state
  unfolding read_bytes
  read_bytes-IsClean [] r c = c
  read_bytes-IsClean (b ∷ bytes) r c =
      read_bytes-IsClean bytes (read_byte p archive profile max_line_bytes r b)
        (read_byte-IsClean r b c)
