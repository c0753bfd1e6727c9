-- ===== src/Tests/Parsing.antt =====
-- Concrete texts, rows and files.
use work_smt.Base.{
  ltb, arith, false, length, ℕ, refl, some, none, ◌↔◌, ◌≡◌, [], is_empty, if◌then◌else◌, ◌∷◌, true,
  List, All,
}
use work_smt.Parsing.Utf8.Accepts.{valid_utf8_iff_WellFormed}
use work_smt.Parsing.Csv.RoundTrip.{parse_csv_row-write_row, Cell, write_row}
use work_smt.Parsing.Utf8.{is_refused, read_continuation, lead, valid_utf8_from, valid_utf8}
use work_smt.Parsing.Tokenizer.{
  push_term, to_lower, is_term_character, tokenize_from, tokenize_terms,
}
use work_smt.Parsing.Archive.Outcome.{parse_archive-Describes, Describes}
use work_smt.Parsing.Utf8.Grammar.{WellFormed}
use work_smt.Parsing.Runtime.Fields.{parse_fields-write_fields, write_fields}
use work_smt.Parsing.Tokenizer.RoundTrip.{tokenize_terms_idem, joined, IsTerm}
use work_smt.Parsing.Archive.Chunks.{parse_opened-content, content}
use work_smt.Parsing.Archive.{opened, interrupted, chunk, parse_archive, ReadResult, parse_opened}
use work_smt.Parsing.Runtime.{parse_fields, contains_byte}
use work_smt.Parsing.Tokenizer.Laws.{tokenize_terms-Terms, Terms}
use work_smt.Base.Bytes.{codes, Bytes}
use work_smt.Parsing.Models.{has_field, Platform, ParserProfile, ArchiveRecord}
use work_smt.Parsing.Csv.{parse_csv_row}

upper_test :
    tokenize_terms (codes "Err=E-42, at AOI")
    ≡ codes "err" ∷ codes "e-42" ∷ codes "at" ∷ codes "aoi" ∷ []
unfolding tokenize_terms tokenize_from is_term_character to_lower push_term
upper_test = refl

tokenize_terms-Terms_example : Terms (codes "Err=E-42") (tokenize_terms (codes "Err=E-42"))
tokenize_terms-Terms_example = tokenize_terms-Terms (codes "Err=E-42")

tokenize_terms_idem_example :
    All IsTerm (tokenize_terms (codes "Err=E-42"))
    × (tokenize_terms (joined (tokenize_terms (codes "Err=E-42")))
        ≡ tokenize_terms (codes "Err=E-42"))
tokenize_terms_idem_example = tokenize_terms_idem (codes "Err=E-42")

valid_utf8_iff_WellFormed_example :
    (valid_utf8 (0xE6 ∷ 0x97 ∷ 0xA5 ∷ []) ≡ true) ↔ WellFormed (0xE6 ∷ 0x97 ∷ 0xA5 ∷ [])
valid_utf8_iff_WellFormed_example = valid_utf8_iff_WellFormed (0xE6 ∷ 0x97 ∷ 0xA5 ∷ [])

-- A surrogate and an overlong form are refused.
surrogate_test :
    (valid_utf8 (0xED ∷ 0xA0 ∷ 0x80 ∷ []) ≡ false) × (valid_utf8 (0xC0 ∷ 0x80 ∷ []) ≡ false)
unfolding valid_utf8 valid_utf8_from lead read_continuation is_refused
surrogate_test = (refl, refl)

parse_csv_row-write_row_example :
    parse_csv_row (write_row (Cell.plain (codes "R1") ∷ Cell.enclosed (codes "a,\"b") ∷ []))
    ≡ some (codes "R1" ∷ codes "a,\"b" ∷ [])
parse_csv_row-write_row_example =
    parse_csv_row-write_row (Cell.plain (codes "R1")) (Cell.enclosed (codes "a,\"b") ∷ [])
      (omega arith)

abbrev level_field : Bytes × Bytes
level_field = (codes "level", codes "WARN")

abbrev module_field : Bytes × Bytes
module_field = (codes "module", codes "feeder")

parse_fields-write_fields_example :
    parse_fields (write_fields (level_field ∷ module_field ∷ []))
    ≡ some (level_field ∷ module_field ∷ [])
unfolding contains_byte has_field
parse_fields-write_fields_example =
    parse_fields-write_fields (level_field ∷ module_field ∷ [])
      (
        record {
          key_some = refl;
          value_some = refl;
          key_no_equals = refl;
          value_no_equals = refl;
          key_no_blank = refl;
          value_no_blank = refl;
        },
        (
          record {
            key_some = refl;
            value_some = refl;
            key_no_equals = refl;
            value_no_equals = refl;
            key_no_blank = refl;
            value_no_blank = refl;
          },
          tt,
        ),
      )
      (refl, (refl, tt))

-- A platform whose times are kept as text, with one number and one digest.
abbrev platform : Platform
platform = record {
  Instant = Bytes;
  parse_iso8601_milliseconds = λ t. if is_empty t then none else some t;
  format_utc_milliseconds = λ t. t;
  Double = ℕ;
  strtod = λ t. (0, length t, true);
  is_finite = λ n. true;
  greater = λ a b. ltb b a;
  sha256_hex = λ t. codes "digest";
}

abbrev archive : ArchiveRecord
archive = record {
  archive_id = 9;
  line_id = codes "LINE-01";
  station_id = codes "ST-AOI-01";
  device_id = codes "AOI-VT-01";
  collector_id = codes "COL-01";
  work_order = [];
  product_sn = [];
  file_type = codes "RUNTIME_LOG";
  original_filename = codes "a.log";
  relative_path = codes "a.log";
  file_size = 23;
  file_sha256 = codes "digest";
  produced_at = [];
  archived_at = [];
}

abbrev runtime_profile : ParserProfile
runtime_profile = record { name = codes "kv_runtime_v1"; version = 1 }

abbrev reads : List ReadResult
reads = chunk (codes "T level=WA") ∷ interrupted ∷ chunk (codes "RN module=a\r\n") ∷ []

abbrev one_read : List ReadResult
one_read = chunk (codes "T level=WARN module=a\r\n") ∷ []

parse_opened-content_example :
    parse_opened platform archive runtime_profile 65536 reads true
    ≡ parse_opened platform archive runtime_profile 65536 one_read true
parse_opened-content_example =
    parse_opened-content platform archive runtime_profile 65536 reads one_read
      (refl, (tt, (refl, tt))) (refl, tt) refl true

parse_archive-Describes_example :
    Describes platform archive runtime_profile 65536
      (content reads)
      (parse_archive platform archive runtime_profile 65536 (opened reads true))
parse_archive-Describes_example =
    parse_archive-Describes platform archive runtime_profile 65536 reads (refl, (tt, (refl, tt)))
