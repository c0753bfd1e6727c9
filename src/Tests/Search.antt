-- ===== src/Tests/Search.antt =====
-- A segment of two documents, its lookups and its searches.
use work_smt.Index.Original.Exact.{read_original-reads}
use work_smt.Index.Original.{returned, delivers, interrupts, read_original}
use work_smt.Base.{
  ap, zero, suc, get_elem?, ◌<◌, ◌≤◌, none, refl, ◌+◌, ◌*◌, true, map, [], ◌↔◌, arith, ◌∷◌, ◌≡◌,
  some, ℕ,
}
use work_smt.Search.Postings.Frequency.{term_frequency-finds, IsSortedRange}
use work_smt.Index.Segments.{
  SegmentDocumentRecord, SegmentPosting, SegmentFileRecord, LoadedSegment,
}
use mathlib.Core.Option.{some-injective}
use work_smt.Search.Query.{is_other, is_excluded, matches_filters, SearchQuery}
use work_smt.Search.Postings.{
  term_frequency, insert_term, sort_terms, merge, set_intersection, narrow, candidates, posting_ids,
  read_local_ids, frequencies, lower_bound,
}
use work_smt.Index.Snapshot.Built.{
  make_snapshot_lem, documents_total, find_document_iff, last_batch,
}
use work_smt.Index.Snapshot.Lookup.{Increasing, Holds, Among}
use work_smt.Search.Segment.Scan.{
  search_segments-scan, search_segment-scan, scan, scan_all, IsSearchable,
}
use work_smt.Base.Ints.{negsuc, pos}
use work_smt.Index.Snapshot.{
  empty_snapshot, add_segment, add_segments, IndexSnapshot, make_snapshot, find_document,
}
use work_smt.Search.Segment.{select, find_index, find_terms, search_segments, search_segment}
use work_smt.Base.Bytes.{Bytes, codes}

abbrev file : SegmentFileRecord
file = record {
  archive_id = 7;
  file_size = 90;
  file_sha256 = codes "ab";
  relative_path = codes "x.log";
}

abbrev document : ℕ → Bytes → SegmentDocumentRecord
document local level = record {
  doc_id = 3 * 4294967296 + local;
  local_id = local;
  file_ordinal = 0;
  archive_id = 7;
  byte_offset = 0;
  byte_length = 40;
  occurred_at_ms = pos 1000;
  archived_at_ms = pos 2000;
  term_count = 2;
  line_id = codes "L1";
  station_id = codes "S1";
  device_id = codes "D1";
  collector_id = codes "C1";
  work_order = [];
  product_sn = [];
  source_type = codes "RUNTIME_LOG";
  level = level;
  module_name = codes "aoi";
  error_code = [];
  event_name = codes "e";
}

abbrev posting : ℕ → ℕ → SegmentPosting
posting id n = record { local_id = id; term_frequency = n }

abbrev segment : LoadedSegment
segment = record {
  format_version = 1;
  batch_id = 3;
  first_archive_id = 7;
  last_archive_id = 7;
  source_file_count = 1;
  parsed_file_count = 1;
  segment_name = codes "s";
  manifest_sha256 = [];
  min_occurred_at_ms = pos 1000;
  max_occurred_at_ms = pos 1000;
  files = file ∷ [];
  documents = document 0 (codes "INFO") ∷ document 1 (codes "ERROR") ∷ [];
  postings = posting 0 2 ∷ posting 1 1 ∷ posting 1 5 ∷ [];
  terms =
      record { term = codes "jam"; document_frequency = 2; posting_begin = 0; posting_count = 2 }
      ∷ record { term = codes "e-42"; document_frequency = 1; posting_begin = 2; posting_count = 1 }
      ∷ [];
  term_lookup = (codes "jam", 0) ∷ (codes "e-42", 1) ∷ [];
}

abbrev snapshot : IndexSnapshot
snapshot = record { segments = segment ∷ []; version = 3; document_count = 2 }

abbrev query : SearchQuery
query = record {
  keywords = codes "jam e-42" ∷ [];
  line_id = codes "L1";
  station_id = [];
  device_id = [];
  work_order = [];
  product_sn = [];
  levels = [];
  module_name = [];
  error_code = [];
  has_time_range = true;
  occurred_from_ms = negsuc 4;
  occurred_to_ms = pos 1000;
  anomaly_only = true;
  offset = 0;
  page_size = 10;
}

snapshot_test : make_snapshot (some segment ∷ []) ≡ some snapshot
unfolding make_snapshot add_segments add_segment empty_snapshot
snapshot_test = refl

null_test : make_snapshot (none ∷ some segment ∷ []) ≡ none
unfolding make_snapshot add_segments add_segment empty_snapshot
null_test = refl

make_snapshot_lem_example :
    (some segment ∷ [] ≡ map some (segment ∷ []))
    × Increasing 0 (segment ∷ [])
    × (3 ≡ last_batch 0 (segment ∷ []))
    × (2 ≡ documents_total (segment ∷ []))
make_snapshot_lem_example = make_snapshot_lem (some segment ∷ []) snapshot snapshot_test

find_document_iff_example :
    (find_document 12884901889 snapshot ≡ some (document 1 (codes "ERROR"), file)) ↔ (
      (g : LoadedSegment) × Among g (segment ∷ [])
      × Holds g 12884901889 (document 1 (codes "ERROR")) file)
find_document_iff_example =
    find_document_iff (some segment ∷ []) snapshot 12884901889 (document 1 (codes "ERROR")) file
      snapshot_test

search_test :
    search_segment segment query (codes "jam" ∷ codes "e-42" ∷ [])
    ≡ some (document 1 (codes "ERROR") ∷ [])
unfolding search_segment find_terms find_index select candidates narrow posting_ids read_local_ids
    set_intersection merge sort_terms insert_term matches_filters is_excluded is_other frequencies
    term_frequency lower_bound
search_test = refl

-- Postings outside of the table: the search reads out of bounds.
outside_test : search_segment (record segment { postings = [] }) query (codes "jam" ∷ []) ≡ none
unfolding search_segment find_terms find_index candidates posting_ids read_local_ids sort_terms
    insert_term
outside_test = refl

segment-IsSearchable : IsSearchable segment
segment-IsSearchable = record {
  posted = (
    record {
      in_table = omega arith;
      ascends = (omega arith, (omega arith, tt));
      inside = (omega arith, (omega arith, tt));
    },
    (
      record { in_table = omega arith; ascends = (omega arith, tt); inside = (omega arith, tt) },
      tt,
    ),
  );
  named = (omega arith, (omega arith, tt));
}

search_segment-scan_example :
    search_segment segment query (codes "jam" ∷ codes "e-42" ∷ [])
    ≡ some (scan segment query (codes "jam" ∷ codes "e-42" ∷ []) 0 segment.documents)
search_segment-scan_example =
    search_segment-scan segment query (codes "jam" ∷ codes "e-42" ∷ []) segment-IsSearchable

search_segments-scan_example :
    search_segments (segment ∷ []) query (codes "jam" ∷ [])
    ≡ some (scan_all (segment ∷ []) query (codes "jam" ∷ []))
search_segments-scan_example =
    search_segments-scan (segment ∷ []) query (codes "jam" ∷ []) (segment-IsSearchable, tt)

first_ascends :
    (i j : ℕ) (p q : SegmentPosting)
    → 0 ≤ i
    → i < j
    → j < 2
    → get_elem? segment.postings i ≡ some p
    → get_elem? segment.postings j ≡ some q
    → p.local_id < q.local_id
first_ascends zero zero p q a b c d e = absurd (omega arith)
first_ascends zero (suc zero) p q a b c d e =
    let x = ap (λ r. r.local_id) (some-injective (posting 0 2) p d) in
    let y = ap (λ r. r.local_id) (some-injective (posting 1 1) q e) in omega (arith, x, y)
first_ascends zero (suc (suc j)) p q a b c d e = absurd (omega arith)
first_ascends (suc i) zero p q a b c d e = absurd (omega arith)
first_ascends (suc i) (suc j) p q a b c d e = absurd (omega arith)

-- The range of the first term, positions 0 and 1.
first_range : IsSortedRange segment.postings 0 2
first_range = record { inside = omega arith; ascends = first_ascends }

term_frequency-finds_example :
    term_frequency segment
      (record { term = codes "jam"; document_frequency = 2; posting_begin = 0; posting_count = 2 })
      1
    ≡ some 1
term_frequency-finds_example =
    term_frequency-finds segment
      (record { term = codes "jam"; document_frequency = 2; posting_begin = 0; posting_count = 2 })
      1 (posting 1 1) first_range refl (omega arith) (omega arith)

-- The bytes 3 to 6 of a file, in pieces.
read_original-reads_example :
    read_original
      (record file { file_size = 9 })
      3
      4
      (some 9)
      (codes "abcdefghi")
      (interrupts ∷ delivers 1 ∷ delivers 9 ∷ delivers 1 ∷ delivers 1 ∷ [])
      true
    ≡ returned (codes "defg")
read_original-reads_example =
    read_original-reads (record file { file_size = 9 }) 3 4 (codes "abcdefghi")
      (interrupts ∷ delivers 1 ∷ delivers 9 ∷ delivers 1 ∷ delivers 1 ∷ []) (omega arith)
      (omega arith) refl (omega arith)
      (tt, (omega arith, (omega arith, (omega arith, (omega arith, tt))))) (omega arith)
