-- ===== src/Search/Query.antt =====
-- 02_SMT_LogTrace/include/logtrace/search/search_models.h and the tests that search_engine.cpp makes
-- on one document. An empty string in the query stands for no filter.
use work_smt.Base.Ints.{less, ℤ}
use work_smt.Base.{◌&&◌, [], ℕ, ◌∷◌, is_empty, false, not, if◌then◌else◌, ◌||◌, Bool, List}
use work_smt.Base.Bytes.{codes, bytes_eq, Bytes}
use work_smt.Index.Segments.{SegmentDocumentRecord}

pub record SearchQuery : Type 0 where
  pub keywords : List Bytes
  pub line_id : Bytes
  pub station_id : Bytes
  pub device_id : Bytes
  pub work_order : Bytes
  pub product_sn : Bytes
  pub levels : List Bytes
  pub module_name : Bytes
  pub error_code : Bytes
  pub has_time_range : Bool
  pub occurred_from_ms : ℤ
  pub occurred_to_ms : ℤ
  pub anomaly_only : Bool
  pub offset : ℕ
  pub page_size : ℕ

unfoldable pub contains : List Bytes → Bytes → Bool
contains [] value = false
contains (v ∷ vs) value = bytes_eq v value || contains vs value

-- `!wanted.empty() && actual != wanted`.
unfoldable pub is_other : Bytes → Bytes → Bool
is_other wanted actual = not (is_empty wanted) && not (bytes_eq actual wanted)

-- The first condition of `matchesFilters`, under which it returns false.
unfoldable pub is_excluded : SegmentDocumentRecord → SearchQuery → Bool
is_excluded document query =
    is_other query.line_id document.line_id
    || is_other query.station_id document.station_id
    || is_other query.device_id document.device_id
    || is_other query.work_order document.work_order
    || is_other query.product_sn document.product_sn
    || (not (is_empty query.levels) && not (contains query.levels document.level))
    || is_other query.module_name document.module_name
    || is_other query.error_code document.error_code
    || (query.has_time_range
        && (less document.occurred_at_ms query.occurred_from_ms
            || less query.occurred_to_ms document.occurred_at_ms))

unfoldable pub matches_filters : SegmentDocumentRecord → SearchQuery → Bool
matches_filters document query =
    if is_excluded document query
    then false
    else (not query.anomaly_only
        || bytes_eq document.level (codes "WARN")
        || bytes_eq document.level (codes "ERROR")
        || not (is_empty document.error_code))
