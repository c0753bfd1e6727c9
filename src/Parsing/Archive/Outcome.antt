-- ===== src/Parsing/Archive/Outcome.antt =====
-- The result of `parseArchive`.
use work_smt.Parsing.Archive.Failures.{read_bytes-IsClean, end_line-IsClean, IsClean}
use work_smt.Parsing.Archive.Chunks.{read_loop-content, content, IsReadable}
use work_smt.Parsing.Archive.{
  OpenResult, opened, is_report, ReadResult, initial_reader, is_runtime, read_bytes, parse_opened,
  Reader, end_line, finish_parser, parse_archive, last_line, conclude, failed_result,
}
use work_smt.Parsing.Archive.Reading.{read_bytes-Reads, end_line-Located, Reads}
use work_smt.Base.Bytes.{bytes_eq_sound, bytes_eq, codes, Bytes}
use work_smt.Base.{
  ==_iff, ◌∙◌, inl, inr, ◌==◌, false, length, Bool-cases, is_empty, true, ◌≡◌, refl, arith, ◌||◌,
  List, append-nil, subst, ◌++◌, sym, [], All, true_ne_false, ℕ,
}
use work_smt.Parsing.Models.{
  ParserState, ArchiveParseResult, fail, ParserProfile, ArchiveRecord, Platform,
}
use work_smt.Parsing.Archive.Located.{documents, Located}
use work_smt.Parsing.Runtime.{contains_byte}

module _ (p : Platform) (archive : ArchiveRecord) (profile : ParserProfile)
    (max_line_bytes : ℕ) where
  -- The reader after a file that could be read.
  abbrev after : Bytes → Reader
  after file = read_bytes p archive profile max_line_bytes initial_reader file

  last_line-Located :
      (file : Bytes) (r : Reader)
      → Reads max_line_bytes file r
      → All (Located max_line_bytes file) (documents (last_line p archive profile max_line_bytes r))
  unfolding last_line
  last_line-Located file r k =
      let whole : file ++ [] ≡ file = append-nil file in
      let kept =
        subst (λ x. All (Located max_line_bytes x) (documents r.state)) whole (k.located []) in
      let ended =
        subst
          (λ x.
            All (Located max_line_bytes x)
              (end_line p archive profile max_line_bytes r).result.documents)
          whole
          (end_line-Located p archive profile max_line_bytes file [] [] r k (inr (refl, refl))) in
      ground (arith, kept, ended)

  last_line-IsClean :
      (r : Reader) → IsClean r.state → IsClean (last_line p archive profile max_line_bytes r)
  unfolding last_line
  last_line-IsClean r c e = ground (arith, c, end_line-IsClean p archive profile max_line_bytes r c)

  finish_parser-Located :
      (file : Bytes) (state : ParserState)
      → All (Located max_line_bytes file) (documents state)
      → All (Located max_line_bytes file) (documents (finish_parser profile state))
  unfolding finish_parser fail
  finish_parser-Located file state h = ground arith

  finish_parser-IsClean :
      (state : ParserState) → IsClean state → IsClean (finish_parser profile state)
  unfolding finish_parser fail
  finish_parser-IsClean state c e = ground (arith, c)

  finish_parser-success :
      (state : ParserState)
      → (is_runtime profile || is_report profile) ≡ true
      → (finish_parser profile state).result.success ≡ true
      → is_empty (documents (finish_parser profile state)) ≡ false
  unfolding finish_parser fail
  finish_parser-success state known h = ground arith

  -- What a result says of the file that was read.
  pub record Describes (file : Bytes) (result : ArchiveParseResult) : Type 0 where
    pub located : All (Located max_line_bytes file) result.documents
    pub same_size : result.success ≡ true → length file ≡ archive.file_size
    pub same_digest : result.success ≡ true → p.sha256_hex file ≡ archive.file_sha256
    pub some_document : result.success ≡ true → is_empty result.documents ≡ false
    pub no_document : result.success ≡ false → is_empty result.documents ≡ true

  failed_result-Describes : (file code : Bytes) → Describes file (failed_result code)
  unfolding failed_result
  failed_result-Describes file code = record {
    located = tt;
    same_size = λ h. absurd (true_ne_false (sym h));
    same_digest = λ h. absurd (true_ne_false (sym h));
    some_document = λ h. absurd (true_ne_false (sym h));
    no_document = λ h. refl;
  }

  initial-Reads : Reads max_line_bytes [] initial_reader
  unfolding contains_byte
  initial-Reads = record {
    before = [];
    rest = [];
    splits = refl;
    starts = refl;
    at_start = inl refl;
    whole = λ h. refl;
    full = λ h. absurd (true_ne_false (sym h));
    one_line = refl;
    offset = refl;
    located = λ more. tt;
  }

  conclude-Describes :
      (file : Bytes) (r : Reader)
      → (is_runtime profile || is_report profile) ≡ true
      → Reads max_line_bytes file r
      → IsClean r.state
      → Describes file (conclude p archive profile max_line_bytes r file)
  unfolding conclude
  conclude-Describes file r known k c = elim (Bool-cases (r.absolute_offset == archive.file_size)) [
    | inr size ↦ rw (conclude, size) (failed_result-Describes file (codes "ARCHIVE_SIZE_MISMATCH"))
    | inl size ↦ elim (Bool-cases (bytes_eq (p.sha256_hex file) archive.file_sha256)) [
      | inr digest ↦
          rw (conclude, size, digest)
            (failed_result-Describes file (codes "ARCHIVE_SHA256_MISMATCH"))
      | inl digest ↦
          let state = last_line p archive profile max_line_bytes r in
          rw (conclude, size, digest)
            (record {
              located = finish_parser-Located file state (last_line-Located file r k);
              same_size = λ h. sym k.offset ∙ (==_iff _ _).0 size;
              same_digest = λ h. bytes_eq_sound _ _ digest;
              some_document = λ h. finish_parser-success state known h;
              no_document = finish_parser-IsClean state (last_line-IsClean r c);
            })
    ]
  ]

  parse_archive_known :
      (results : List ReadResult)
      → All IsReadable results
      → (is_runtime profile || is_report profile) ≡ true
      → parse_archive p archive profile max_line_bytes (opened results true)
        ≡ conclude p archive profile max_line_bytes (after (content results)) (content results)
  unfolding parse_archive parse_opened
  parse_archive_known results h known =
      ground (
        arith,
        known,
        read_loop-content p archive profile max_line_bytes results initial_reader [] h,
      )

  parse_archive_unknown :
      (answer : OpenResult)
      → (is_runtime profile || is_report profile) ≡ false
      → parse_archive p archive profile max_line_bytes answer
        ≡ failed_result (codes "PARSER_PROFILE_UNSUPPORTED")
  unfolding parse_archive
  parse_archive_unknown answer unknown = ground arith

  -- When the file can be read and closed, every document of the result is one whole line of valid
  -- text without its line end, at the offset and of the length that the document names: the line
  -- begins the file or follows a line feed, ends with a line feed or the file, after at most one
  -- carriage return, and is no longer than the maximum. Success means that the size and the digest
  -- are those of the archive record and that there is a document, and a failure has none.
  pub parse_archive-Describes :
      (results : List ReadResult)
      → All IsReadable results
      → Describes
          (content results)
          (parse_archive p archive profile max_line_bytes (opened results true))
  parse_archive-Describes results h = elim (Bool-cases (is_runtime profile || is_report profile)) [
    | inr unknown ↦
        rw (parse_archive_unknown (opened results true) unknown)
          (failed_result-Describes (content results) (codes "PARSER_PROFILE_UNSUPPORTED"))
    | inl known ↦ rw (parse_archive_known results h known) (
        conclude-Describes (content results) (after (content results)) known
          (read_bytes-Reads p archive profile max_line_bytes (content results) [] initial_reader
            initial-Reads)
          (read_bytes-IsClean p archive profile max_line_bytes (content results) initial_reader
            (λ e. absurd (true_ne_false e))))
  ]
