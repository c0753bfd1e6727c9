-- ===== src/Parsing/Archive.antt =====
-- `processLine`, `finishParser` and `parseArchive` of
-- 02_SMT_LogTrace/src/indexing/archive_parser.cpp. The file is the list of results of `read`: a
-- chunk of bytes, an interruption or an error; the end of the list is the end of the file.
pub mod Chunks
pub mod Located
pub mod Reading
pub mod Failures
pub mod Outcome
use work_smt.Base.{
  length, ltb, leb, ◌&&◌, ◌||◌, ◌++◌, is_empty, ◌+◌, ℕ, ◌==◌, not, false, if◌then◌else◌, ◌∷◌, true,
  Bool, List, [],
}
use work_smt.Parsing.Models.{
  fail, LineView, ArchiveRecord, ArchiveParseResult, ParserState, ParserProfile, Platform, ok,
  refused,
}
use work_smt.Parsing.Report.{parse_fct_line}
use work_smt.Base.Bytes.{codes, bytes_eq, Bytes}
use work_smt.Parsing.Runtime.{parse_runtime_line}

unfoldable pub is_runtime : ParserProfile → Bool
is_runtime profile = bytes_eq profile.name (codes "kv_runtime_v1")

unfoldable pub is_report : ParserProfile → Bool
is_report profile = bytes_eq profile.name (codes "fct_csv_v1")

-- `success = false`, with its code and no documents, whatever was parsed.
unfoldable pub failed_result : Bytes → ArchiveParseResult
failed_result code = record {
  success = false;
  failure_code = code;
  failure_line = 0;
  documents = [];
}

unfoldable pub finish_parser : ParserProfile → ParserState → ParserState
finish_parser profile state =
    if not state.result.success
    then state
    else if is_runtime profile && is_empty state.result.documents
    then fail state (codes "RUNTIME_LOG_EMPTY") 0
    else if is_report profile
        && (not state.fct_table_header_seen || is_empty state.result.documents)
    then fail state (codes "FCT_CSV_EMPTY") 0
    else state

-- The local variables of the read loop.
pub record Reader : Type 0 where
  pub state : ParserState
  pub line : Bytes
  pub line_overflow : Bool
  pub absolute_offset : ℕ
  pub line_offset : ℕ
  pub line_number : ℕ

abbrev pub initial_state : ParserState
initial_state = record {
  result = record { success = true; failure_code = []; failure_line = 0; documents = [] };
  fct_header = [];
  fct_occurred_at = [];
  fct_table_header_seen = false;
}

abbrev pub initial_reader : Reader
initial_reader = record {
  state = initial_state;
  line = [];
  line_overflow = false;
  absolute_offset = 0;
  line_offset = 0;
  line_number = 1;
}

-- The line without a carriage return at its end.
unfoldable pub strip_return : Bytes → Bytes
strip_return [] = []
strip_return (c ∷ []) = if c == b'\r' then [] else c ∷ []
strip_return (c ∷ d ∷ line) = c ∷ strip_return (d ∷ line)

pub data ReadResult : Type 0 where
  chunk : Bytes → ReadResult
  interrupted : ReadResult
  failed : ReadResult

pub data OpenResult : Type 0 where
  missing : OpenResult
  unreadable : OpenResult
  opened : List ReadResult → Bool → OpenResult

module _ (p : Platform) where
  unfoldable pub process_line : ArchiveRecord → ParserProfile → LineView → ParserState → ParserState
  process_line archive profile line state =
      if not state.result.success
      then state
      else if is_runtime profile
      then parse_runtime_line p archive line state
      else if is_report profile
      then parse_fct_line p archive line state
      else fail state (codes "PARSER_PROFILE_UNSUPPORTED") 0

  module _ (archive : ArchiveRecord) (profile : ParserProfile) (max_line_bytes : ℕ) where
    -- The end of a line, at a line feed or at the end of the file.
    unfoldable pub end_line : Reader → ParserState
    end_line r =
        let text = strip_return r.line in
        if r.line_overflow || ltb max_line_bytes (length text)
        then fail r.state (codes "LINE_TOO_LONG") r.line_number
        else process_line archive profile
            (record {
              number = r.line_number;
              offset = r.line_offset;
              length = length text;
              text = text;
            })
            r.state

    unfoldable pub read_byte : Reader → ℕ → Reader
    read_byte r byte =
        if byte == b'\n'
        then record r {
          state = end_line r;
          line = [];
          line_overflow = false;
          line_offset = r.absolute_offset + 1;
          line_number = r.line_number + 1;
          absolute_offset = r.absolute_offset + 1;
        }
        else if leb (length r.line) max_line_bytes
        then record r { line = r.line ++ byte ∷ []; absolute_offset = r.absolute_offset + 1 }
        else record r { line_overflow = true; absolute_offset = r.absolute_offset + 1 }

    -- One chunk of bytes.
    unfoldable pub read_bytes : Reader → Bytes → Reader
    read_bytes r [] = r
    read_bytes r (byte ∷ bytes) = read_bytes (read_byte r byte) bytes

    -- The loop over `read`: the reader, the bytes hashed so far, and whether a read failed. An
    -- empty chunk is the end of the file.
    unfoldable pub read_loop : Reader → Bytes → List ReadResult → Reader × Bytes × Bool
    read_loop r hashed [] = (r, hashed, false)
    read_loop r hashed (chunk [] ∷ results) = (r, hashed, false)
    read_loop r hashed (chunk (b ∷ bytes) ∷ results) =
        read_loop (read_bytes r (b ∷ bytes)) (hashed ++ b ∷ bytes) results
    read_loop r hashed (interrupted ∷ results) = read_loop r hashed results
    read_loop r hashed (failed ∷ results) = (r, hashed, true)

    -- The last line, if it has no line feed.
    unfoldable pub last_line : Reader → ParserState
    last_line r = if not (is_empty r.line) || r.line_overflow then end_line r else r.state

    -- The checks on size and digest, once the file is read and closed.
    unfoldable pub conclude : Reader → Bytes → ArchiveParseResult
    conclude r hashed =
        let state = last_line r in
        if not (r.absolute_offset == archive.file_size)
        then failed_result (codes "ARCHIVE_SIZE_MISMATCH")
        else if not (bytes_eq (p.sha256_hex hashed) archive.file_sha256)
        then failed_result (codes "ARCHIVE_SHA256_MISMATCH")
        else (finish_parser profile state).result

    unfoldable pub parse_opened : List ReadResult → Bool → ArchiveParseResult
    parse_opened results close_ok =
        let (r, hashed, read_failed) = read_loop initial_reader [] results in
        if read_failed
        then failed_result (codes "ARCHIVE_FILE_READ_FAILED")
        else if not close_ok
        then failed_result (codes "ARCHIVE_FILE_CLOSE_FAILED")
        else conclude r hashed

    -- The whole of `parseArchive`, for what the file system answers to `open`, `read` and `close`.
    unfoldable pub parse_archive : OpenResult → ArchiveParseResult
    parse_archive answer =
        if not (is_runtime profile) && not (is_report profile)
        then failed_result (codes "PARSER_PROFILE_UNSUPPORTED")
        else (elim answer [
          | missing ↦ failed_result (codes "ARCHIVE_FILE_NOT_FOUND")
          | unreadable ↦ failed_result (codes "ARCHIVE_FILE_OPEN_FAILED")
          | opened results close_ok ↦ parse_opened results close_ok
        ])
