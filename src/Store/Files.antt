-- ===== src/Store/Files.antt =====
-- 02_SMT_LogTrace/src/indexing/segment_store.cpp: serializeFiles and loadFiles.
pub mod RoundTrip
use work_smt.Store.Codec.{
  append_records, append_uint64, before, record_invalid, append_string, read_header, append_header,
  accept, bytes_to_sha256, append_sha256_bytes, load_all, read_string, StoreError, ◌>>>◌,
  read_uint64, give, read_bytes, Reader,
}
use work_smt.Base.{
  length, ltb, is_empty, ◌||◌, ◌++◌, zero, suc, ◌∷◌, ◌==◌, false, not, [], Bool, List, ℕ,
}
use work_smt.Base.Bytes.{codes, Bytes}
use work_smt.Base.Results.{◌>>=◌, ok, Result}
use work_smt.Index.Segments.{SegmentFileRecord}

unfoldable pub file_bytes : SegmentFileRecord → Result StoreError Bytes
file_bytes f = append_sha256_bytes f.file_sha256 >>= λ sha.
    append_string f.relative_path >>= λ path.
    ok (before (append_uint64 f.archive_id ∷ append_uint64 f.file_size ∷ sha ∷ []) path)

unfoldable pub serialize_files : List SegmentFileRecord → Result StoreError Bytes
serialize_files fs = append_records file_bytes fs >>= λ records.
    ok (append_header (codes "LTFIL001") (length fs) ++ records)

unfoldable pub read_sha256 : Reader Bytes
read_sha256 = read_bytes 32 >>> λ bs. λ rest. bytes_to_sha256 bs >>= λ hex. ok (hex, rest)

unfoldable pub has_archive : ℕ → List ℕ → Bool
has_archive id [] = false
has_archive id (x ∷ xs) = x == id || has_archive id xs

-- The archive ids of the files before this one are `seen`.
unfoldable pub valid_file : List ℕ → SegmentFileRecord → Bool
valid_file seen f = not (
    f.archive_id == 0
    || f.file_size == 0
    || is_empty f.relative_path
    || ltb 512 (length f.relative_path)
    || has_archive f.archive_id seen)

unfoldable pub read_file : List ℕ → Reader SegmentFileRecord
read_file seen = read_uint64 >>> λ archive_id. read_uint64 >>> λ file_size.
    read_sha256 >>> λ file_sha256. read_string >>> λ relative_path.
    let f : SegmentFileRecord = record {
      archive_id = archive_id;
      file_size = file_size;
      file_sha256 = file_sha256;
      relative_path = relative_path;
    } in
    accept (valid_file seen f) record_invalid f

unfoldable pub read_files : List ℕ → ℕ → Reader (List SegmentFileRecord)
read_files seen zero = give []
read_files seen (suc n) =
    read_file seen >>> λ f. read_files (f.archive_id ∷ seen) n >>> λ fs. give (f ∷ fs)

unfoldable pub load_files : Bytes → ℕ → Result StoreError (List SegmentFileRecord)
load_files content expected_count =
    load_all (read_header (codes "LTFIL001") expected_count >>> λ _. read_files [] expected_count)
      content
