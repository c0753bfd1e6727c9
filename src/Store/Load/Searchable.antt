-- ===== src/Store/Load/Searchable.antt =====
-- A loaded segment has what the search asks of it.
use work_smt.Base.{sym, All-imp, subst, length, some, ◌≡◌, All, ℕ, List}
use work_smt.Store.Terms.Loaded.{IsPostedIn, load_terms-IsSoundTable}
use work_smt.Search.Segment.Selection.{IsPosted}
use work_smt.Store.Load.Tables.{load_segment-LoadedFrom, LoadedFrom}
use work_smt.Search.Segment.Scan.{search_segments-scan, scan_all, IsSearchable}
use work_smt.Base.Results.{ok}
use work_smt.Store.Postings.Loaded.{load_postings-IsInside}
use work_smt.Search.Segment.{search_segments}
use work_smt.Store.Load.{load_segment, SegmentFiles, Manifest, StorePlatform}
use work_smt.Base.Bytes.{Bytes}
use work_smt.Search.Query.{SearchQuery}
use work_smt.Store.Terms.{posting_range}
use work_smt.Index.Segments.{LoadedSegment}

LoadedFrom-IsSearchable :
    (p : StorePlatform) (m : Manifest p.Double) (contents : SegmentFiles) (g : LoadedSegment)
    → LoadedFrom p m contents g
    → IsSearchable g
unfolding posting_range
LoadedFrom-IsSearchable p m contents g l =
    let (inside, count) =
      load_postings-IsInside contents.postings m.posting_count (length g.documents) g.postings
        l.postings in
    let s =
      load_terms-IsSoundTable contents.terms m.term_count (length g.documents) g.postings l.table
        inside l.loads_table in
    record {
      posted = subst (All (IsPosted g)) (sym l.terms) (
          All-imp (IsPostedIn g.postings (length g.documents)) (IsPosted g) l.table.terms
            (λ t k. record { in_table = k.in_table; ascends = k.ascends; inside = k.inside })
            s.posted);
      named = rw (l.terms, l.lookup) s.named;
    }

-- The segments of a snapshot that the store has loaded.
pub record IsLoaded (p : StorePlatform) (g : LoadedSegment) : Type 0 where
  pub name : Bytes
  pub batch_id : ℕ
  pub sha : Bytes
  pub contents : SegmentFiles
  pub loads : load_segment p name batch_id sha contents ≡ ok g

-- In segments that the store has loaded, from any bytes that pass its checks, the search reads only
-- inside of the tables and selects exactly the documents that the scans of all the segments select.
pub search_segments-IsLoaded :
    (p : StorePlatform) (gs : List LoadedSegment) (query : SearchQuery) (words : List Bytes)
    → All (IsLoaded p) gs
    → search_segments gs query words ≡ some (scan_all gs query words)
search_segments-IsLoaded p gs query words h = search_segments-scan gs query words (
    All-imp (IsLoaded p) IsSearchable gs
      (λ g l.
        let (m, f, s, e, b) =
          load_segment-LoadedFrom p l.name l.batch_id l.sha l.contents g l.loads in
        LoadedFrom-IsSearchable p m l.contents g f)
      h)
