-- ===== src/Tests/Upload.antt =====
-- An upload of ten bytes in chunks of four.
use work_smt.Upload.Request.{
  accepted, is_printable_ascii, given, check_given, is_lower_hex, valid_filename, is_smt_identifier,
  chunk_count_of, metadata_incomplete, business_invalid, allowed, last_dot, extension_for,
  value_invalid, RequestFields, UploadConfig, check_request,
}
use work_smt.Parsing.Tokenizer.{to_lower}
use work_smt.Upload.Numbers.{parse_unsigned_iff, Means, is_digit, parse_digits, parse_unsigned}
use work_smt.Base.{false, is_empty, ◌↔◌, refl, arith, some, true, none, ◌≡◌, Bool}
use work_smt.Upload.Request.Accepts.{check_request-IsAccepted, IsAccepted}
use work_smt.Base.Bytes.{codes, Bytes}

abbrev any_time : Bytes → Bool
any_time v = true

abbrev limits : UploadConfig
limits = record { min_chunk_size_bytes = 2; max_chunk_size_bytes = 8; max_file_size_bytes = 100 }

abbrev fields : RequestFields
fields = record {
  station_id = codes "ST-1";
  collector_id = codes "C_1";
  work_order = none;
  product_sn = some (codes "P1");
  file_type = codes "TEST_REPORT";
  result = some (codes "PASS");
  original_filename = codes "a.b.CSV";
  file_size = 10;
  file_sha256 = codes "0123456789abcdef0123456789abcdef0123456789abcdef0123456789abcdef";
  chunk_size = 4;
  produced_at = codes "2026-01-01T00:00:00.000Z";
}

request_test : check_request any_time limits fields ≡ accepted (codes "csv") 3
unfolding check_request value_invalid extension_for last_dot allowed business_invalid
    metadata_incomplete chunk_count_of is_smt_identifier valid_filename is_lower_hex check_given
    given is_printable_ascii to_lower
request_test = refl

check_request-IsAccepted_example : IsAccepted any_time limits fields (codes "csv") 3
check_request-IsAccepted_example =
    check_request-IsAccepted any_time limits fields (codes "csv") 3 (omega arith) (omega arith)
      request_test

parse_unsigned_iff_example :
    (parse_unsigned (codes "18446744073709551616") ≡ some 0)
    ↔ ((is_empty (codes "18446744073709551616") ≡ false) × Means 0 (codes "18446744073709551616") 0)
parse_unsigned_iff_example = parse_unsigned_iff (codes "18446744073709551616") 0

largest_test : parse_unsigned (codes "18446744073709551615") ≡ some 18446744073709551615
unfolding parse_unsigned parse_digits is_digit
largest_test = refl
