-- ===== src/Tests/Build.antt =====
-- A batch whose build gives the segment of the store tests.
use work_smt.Tests.Store.{
  file, document, postings, terms, segment-IsLoaded, segment, sha, query, platform,
}
use work_smt.Store.Build.{
  list_postings, all_postings, term_records, sizes_fit, add_postings, segment_document, count_terms,
  required, find_file, add_document, file_record, add_documents, all_unchanged, ParsedBatch,
  BuildPlatform, ParsedArtifactDocument, build, BuiltSegment,
}
use work_smt.Collector.Uploader.{or_else}
use work_smt.Base.SortedMap.{alter}
use work_smt.Parsing.Tokenizer.{
  to_lower, is_term_character, push_term, tokenize_from, tokenize_terms,
}
use work_smt.Store.Build.Index.{build-in_index, mentions, in_index}
use work_smt.Base.{map, if◌then◌else◌, true, ◌==◌, refl, some, ◌≡◌, [], ◌∷◌, ◌*◌, ℕ}
use work_smt.Store.Build.Meaning.{search_segments-build, select_archived}
use work_smt.Store.Build.Records.{AreRecordsOf}
use work_smt.Parsing.Models.{ArchiveRecord}
use work_smt.Search.Segment.{find_index, search_segments}
use work_smt.Store.Load.{assemble}
use work_smt.Store.Terms.{string_less}
use work_smt.Base.Ints.{negsuc, pos}
use work_smt.Base.Results.{ok}
use work_smt.Base.Bytes.{bytes_eq, codes, Bytes}

-- The batch that the segment was built from.
abbrev archive : ArchiveRecord
archive = record {
  archive_id = 7;
  line_id = codes "L1";
  station_id = codes "S1";
  device_id = codes "D1";
  collector_id = codes "C1";
  work_order = [];
  product_sn = [];
  file_type = codes "RUNTIME_LOG";
  original_filename = codes "x.log";
  relative_path = codes "x.log";
  file_size = 90;
  file_sha256 = sha;
  produced_at = codes "a";
  archived_at = codes "a";
}

abbrev parsed : ℕ → Bytes → ParsedArtifactDocument
parsed local level = record {
  local_id = local;
  document = record {
    archive_id = 7;
    byte_offset = 40 * local;
    byte_length = 40;
    occurred_at = codes "a";
    archived_at = codes "b";
    line_id = codes "L1";
    station_id = codes "S1";
    device_id = codes "D1";
    collector_id = codes "C1";
    work_order = [];
    product_sn = [];
    source_type = codes "RUNTIME_LOG";
    level = level;
    module_name = codes "aoi";
    error_code = [];
    event_name = codes "e";
    term_count = 2;
  };
}

abbrev batch : ParsedBatch
batch = record {
  batch_id = 3;
  files = archive ∷ [];
  documents = parsed 0 (codes "INFO") ∷ parsed 1 (codes "ERROR") ∷ [];
}

abbrev build_platform : BuildPlatform
build_platform = record {
  is_unchanged = λ f. true;
  read_record =
      λ f offset size. some (if offset == 0 then codes "E-42, e-42" else codes "jam (E-42)");
  read_time = λ text. some (if bytes_eq text (codes "a") then pos 1000 else negsuc 2);
}

abbrev built : BuiltSegment
built = record {
  files = file ∷ [];
  documents = document 0 (codes "INFO") ∷ document 1 (codes "ERROR") ∷ [];
  postings = postings;
  terms = terms;
}

batch_builds : build build_platform batch ≡ ok built
unfolding build all_unchanged add_documents add_document find_file required tokenize_terms
    tokenize_from push_term is_term_character to_lower count_terms alter find_index or_else
    string_less segment_document add_postings sizes_fit term_records all_postings list_postings
    file_record
batch_builds = refl

build-in_index_example :
    in_index built.terms built.postings (codes "jam") 1
    ≡ mentions build_platform (map file_record batch.files) batch.documents (codes "jam") 1
build-in_index_example = build-in_index build_platform batch built (codes "jam") 1 batch_builds

search_segments-build_example :
    AreRecordsOf build_platform 3 (map file_record batch.files) batch.documents segment.documents
    × (search_segments (segment ∷ []) query (codes "jam" ∷ [])
        ≡ some (
            select_archived build_platform
              (map file_record batch.files)
              query
              (codes "jam" ∷ [])
              batch.documents
              segment.documents))
unfolding assemble
search_segments-build_example =
    search_segments-build build_platform batch built platform segment query (codes "jam" ∷ [])
      batch_builds segment-IsLoaded refl refl refl
