-- ===== src/Tests/Manager.antt =====
-- The segment manager builds the batch of the segment files, and a search reads its snapshot.
use work_smt.Base.{
  ap, arith, refl, inr, subst, false, inl, ◌≡◌, Bool-cases, [], ◌==◌, ◌∷◌, none, if◌then◌else◌,
  true, some, ℕ,
}
use work_smt.Manager.Directories.Names.{segment_name_of-injective}
use work_smt.Manager.Progress.{recover_batch-IsDecided, IsDecided, IsHealthy}
use work_smt.Manager.Publish.{
  recover_batch, build_next, recover_building_batches, list_building, recover_batches,
  value_or_throw, first_parsed, continue_build, build_batch, attempt, conclude_build,
  refresh_snapshot, load_all_ready, replace_snapshot,
}
use work_smt.Manager.{
  ParsedBatchDescriptor, building, incomplete, proceed, next_call, Environment, IndexWorld,
  BatchRow, ready, parsed, absent, answered, writes, archive_parsed,
}
use work_smt.Index.Snapshot.{empty_snapshot, add_segment, add_segments, make_snapshot}
use work_smt.Manager.Repository.{
  list_rows, select_rows, first_row, descriptor_of, same_state, mark_batch_building,
  execute_changed_update, update_row, set_row, publish_batch_ready, publish_row, has_archives,
  index_archives, index_archive, ready_descriptor_of,
}
use work_smt.Manager.Directories.{
  build_segment, set_directory, segment_name_of, digits_from, load_ready, load_at,
}
use work_smt.Store.Files.{
  file_bytes, serialize_files, has_archive, valid_file, read_sha256, read_file, read_files,
  load_files,
}
use work_smt.Store.Codec.{
  is_hex, all_hex, valid_sha256, hex_digit, unpack_hex, hex_value, pack_hex, append_sha256_bytes,
  to_unsigned, append_word, append_int64, append_uint64, append_uint32, append_header,
  append_string, append_records, finish, to_signed, word, require_magic, read_bytes, read_string,
  read_int64, read_uint64, read_uint32, ◌>>>◌, bytes_to_sha256, read_header, load_all,
}
use work_smt.Store.Terms.{
  term_bytes, serialize_terms, string_less, assign, add_term, increasing_after, increasing,
  valid_term, check_term, no_terms, read_term, read_terms, load_terms,
}
use work_smt.Store.Postings.{
  posting_bytes, postings_bytes, serialize_postings, valid_posting, read_posting, read_postings,
  load_postings,
}
use work_smt.Store.Documents.{
  document_words, document_strings, document_bytes, serialize_documents, valid_in_file,
  valid_document, read_fields, read_document, read_documents, load_documents,
}
use work_smt.Store.Load.{
  assemble, binary_limit, same_time, total_terms, greatest_time, least_time, valid_statistics,
  load_tables, valid_content, valid_contents, valid_fact, valid_facts, valid_manifest, times_of,
  manifest_of, load_segment,
}
use work_smt.Manager.History.{
  run-search_segments, run-IsPublished, builds_next, recovers_and_loads, run,
}
use work_smt.Search.Segment.Scan.{scan_all}
use work_smt.Manager.Served.{Good}
use work_smt.Search.Postings.{read_local_ids}
use work_smt.Base.Bytes.{codes}
use work_smt.Search.Segment.{search_segments}
use work_smt.Manager.Published.{IsPublished}
use mathlib.Core.Option.{some-injective}
use work_smt.Tests.Store.{platform, contents, snapshot, query, sha}

abbrev row : BatchRow
row = record {
  first_archive_id = 7;
  last_archive_id = 7;
  source_file_count = 1;
  document_count = 2;
  state = parsed;
  parsed_path = some (codes "parsed/batch_3");
  parsed_sha256 = some sha;
  segment_name = none;
  segment_sha256 = none;
  failure_code = none;
}

abbrev world : IndexWorld
world = record {
  tick = 0;
  batches = λ k. if k == 3 then some row else none;
  batch_limit = 4;
  archives = record { archive_id = 7; batch_id = 3; state = archive_parsed } ∷ [];
  directories = λ k. absent;
  snapshot = none;
}

abbrev environment : Environment
environment = record {
  answer = λ t. answered;
  is_readable = λ t. true;
  removal = λ t. none;
  write = λ t d. writes contents;
  is_listable = λ t. true;
}

row_served : (k : ℕ) → Good platform world k
unfolding same_state
row_served k r e h = elim (Bool-cases (k == 3)) [
  | inl b ↦
      let same = some-injective row r (rw b at e) in
      let other : same_state r.state ready ≡ false =
        subst (λ (z : BatchRow). same_state z.state ready ≡ false) same refl in
      cc
  | inr b ↦ let c = rw b at e in cc
]

world-IsPublished : IsPublished platform world
world-IsPublished = record { served = row_served; loaded = λ s e. cc }

run-IsPublished_example :
    IsPublished platform (run platform environment (recovers_and_loads ∷ builds_next ∷ []) world)
run-IsPublished_example =
    run-IsPublished platform environment (recovers_and_loads ∷ builds_next ∷ []) world
      world-IsPublished

world_built : (run platform environment (builds_next ∷ []) world).snapshot ≡ some snapshot
unfolding load_segment manifest_of times_of valid_manifest valid_facts valid_fact valid_contents
    valid_content load_tables valid_statistics least_time greatest_time total_terms same_time
    load_files load_documents load_postings load_terms load_all read_header read_files read_file
    read_sha256 bytes_to_sha256 valid_file has_archive read_documents read_document read_fields
    valid_document valid_in_file read_postings read_posting valid_posting read_terms read_term
    no_terms check_term valid_term increasing increasing_after read_local_ids add_term assign
    string_less ◌>>>◌ read_uint32 read_uint64 read_int64 read_string read_bytes require_magic word
    to_signed finish serialize_files serialize_documents serialize_postings serialize_terms
    append_records file_bytes document_bytes document_strings document_words postings_bytes
    posting_bytes term_bytes append_string append_header append_uint32 append_uint64 append_int64
    append_word to_unsigned append_sha256_bytes pack_hex hex_value unpack_hex hex_digit valid_sha256
    all_hex is_hex binary_limit assemble build_next recover_building_batches list_building list_rows
    select_rows recover_batches value_or_throw proceed first_parsed first_row descriptor_of
    same_state continue_build build_batch mark_batch_building execute_changed_update update_row
    set_row next_call attempt build_segment set_directory segment_name_of digits_from conclude_build
    publish_batch_ready publish_row has_archives index_archives index_archive refresh_snapshot
    ready_descriptor_of load_all_ready load_ready load_at replace_snapshot make_snapshot
    add_segments add_segment empty_snapshot
world_built = refl

run-search_segments_example :
    search_segments snapshot.segments query (codes "jam" ∷ [])
    ≡ some (scan_all snapshot.segments query (codes "jam" ∷ []))
run-search_segments_example =
    run-search_segments platform environment (builds_next ∷ []) world snapshot query
      (codes "jam" ∷ []) world-IsPublished world_built

abbrev interrupted_row : BatchRow
interrupted_row = record row { state = building; segment_name = some (codes "segment_3") }

-- The state after a crash in the middle of a build.
abbrev interrupted : IndexWorld
interrupted = record world {
  batches = λ k. if k == 3 then some interrupted_row else none;
  directories = λ k. incomplete;
}

abbrev descriptor : ParsedBatchDescriptor
descriptor = record {
  batch_id = 3;
  first_archive_id = 7;
  last_archive_id = 7;
  source_file_count = 1;
  document_count = 2;
  parsed_path = codes "parsed/batch_3";
  parsed_sha256 = sha;
}

environment-IsHealthy : IsHealthy environment
environment-IsHealthy = record { answers = λ t. refl; removes = λ t. refl }

recover_batch-IsDecided_example :
    IsDecided 3 (recover_batch platform environment descriptor interrupted)
unfolding same_state has_archives
recover_batch-IsDecided_example =
    recover_batch-IsDecided platform environment descriptor interrupted interrupted_row
      environment-IsHealthy refl refl refl

abbrev this_batch : ℕ
this_batch = 20250715

segment_name_of-injective_example : this_batch ≡ 20250715
segment_name_of-injective_example =
    segment_name_of-injective this_batch 20250715 (omega arith) (omega arith)
      (ap segment_name_of refl)
