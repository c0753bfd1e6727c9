-- ===== src/Manager/Repository.antt =====
-- 02_SMT_LogTrace/src/indexing/index_state_repository.cpp: the statements on the batches that the
-- segment manager carries out.
use work_smt.Base.{
  zero, length, not, true, is_empty, ltb, ◌||◌, suc, [], ◌==◌, ◌∷◌, false, some, if◌then◌else◌,
  none, Option, List, Bool, ℕ,
}
use work_smt.Manager.{
  BatchState, parsing, parsed, building, ready, failed, ArchiveState, archive_pending,
  archive_parsed, archive_indexed, archive_failed, answered, refused, lost, next_call, ArchiveRow,
  Action, ParsedBatchDescriptor, IndexWorld, BatchRow, Environment,
}
use work_smt.Collector.Uploader.{or_else}
use work_smt.Base.Results.{ok}
use work_smt.Base.Bytes.{Bytes}

unfoldable pub same_state : BatchState → BatchState → Bool
same_state parsing parsing = true
same_state parsed parsed = true
same_state building building = true
same_state ready ready = true
same_state failed failed = true
same_state a b = false

unfoldable pub set_row : ℕ → BatchRow → IndexWorld → IndexWorld
set_row id r w = record w { batches = λ k. if k == id then some r else w.batches k }

-- `UPDATE index_batch SET … WHERE batch_id = id AND …`; `none` when it changes no row.
unfoldable pub update_row :
    ℕ → (BatchRow → Bool) → (BatchRow → BatchRow) → IndexWorld → Option IndexWorld
update_row id test change w = elim (w.batches id) [
  | none ↦ none
  | some r ↦ if test r then some (set_row id (change r) w) else none
]

module _ (env : Environment) where
  unfoldable pub execute_changed_update : (IndexWorld → Option IndexWorld) → Action Bool
  execute_changed_update update w = elim (env.answer w.tick) [
    | answered ↦ elim (update w) [
      | none ↦ (ok false, next_call w)
      | some changed ↦ (ok true, next_call changed)
    ]
    | refused ↦ (ok false, next_call w)
    | lost ↦ (ok false, next_call (or_else w (update w)))
  ]

  unfoldable pub mark_batch_building : ℕ → Bytes → Action Bool
  mark_batch_building id name = execute_changed_update (
      update_row id (λ r. same_state r.state parsed)
        (λ r. record r {
          state = building;
          segment_name = some name;
          segment_sha256 = none;
          failure_code = none;
        }))

  unfoldable pub reset_building_batch : ℕ → Bytes → Action Bool
  reset_building_batch id code = execute_changed_update (
      update_row id (λ r. same_state r.state building)
        (λ r. record r {
          state = parsed;
          segment_name = none;
          segment_sha256 = none;
          failure_code = some code;
        }))

  unfoldable pub mark_segment_build_failed : ℕ → Bytes → Action Bool
  mark_segment_build_failed id code = execute_changed_update (
      update_row id (λ r. same_state r.state parsed || same_state r.state building)
        (λ r. record r {
          state = failed;
          segment_name = none;
          segment_sha256 = none;
          failure_code = some code;
        }))

unfoldable pub has_archives : ℕ → List ArchiveRow → Bool
has_archives id [] = false
has_archives id (a ∷ rows) = a.batch_id == id || has_archives id rows

unfoldable pub index_archive : ArchiveState → ArchiveState
index_archive archive_parsed = archive_indexed
index_archive archive_pending = archive_pending
index_archive archive_indexed = archive_indexed
index_archive archive_failed = archive_failed

-- `a.state = IF(a.state = 'PARSED', 'INDEXED', a.state)` for the rows of the batch.
unfoldable pub index_archives : ℕ → List ArchiveRow → List ArchiveRow
index_archives id [] = []
index_archives id (a ∷ rows) =
    (if a.batch_id == id then record a { state = index_archive a.state } else a)
    ∷ index_archives id rows

-- The statement joins the batch with its archives, and changes nothing when it has none.
unfoldable pub publish_row : ℕ → Bytes → Bytes → IndexWorld → Option IndexWorld
publish_row id name sha w =
    if has_archives id w.archives
    then elim (update_row id (λ r. same_state r.state building)
        (λ r. record r {
          state = ready;
          segment_name = some name;
          segment_sha256 = some sha;
          failure_code = none;
        })
        w) [ none ↦ none | some v ↦ some (record v { archives = index_archives id v.archives }) ]
    else none

module _ (env : Environment) where
  unfoldable pub publish_batch_ready : ℕ → Bytes → Bytes → Action Bool
  publish_batch_ready id name sha = execute_changed_update env (publish_row id name sha)

-- The descriptor that a row gives; `none` when a column of it is NULL or invalid.
unfoldable pub descriptor_of : ℕ → BatchRow → Option ParsedBatchDescriptor
descriptor_of id r = elim r.parsed_path [
  | none ↦ none
  | some path ↦ elim r.parsed_sha256 [
    | none ↦ none
    | some sha ↦
        if id == 0
          || r.first_archive_id == 0
          || ltb r.last_archive_id r.first_archive_id
          || r.source_file_count == 0
          || r.document_count == 0
          || is_empty path
          || not (length sha == 64)
        then none
        else some (record {
          batch_id = id;
          first_archive_id = r.first_archive_id;
          last_archive_id = r.last_archive_id;
          source_file_count = r.source_file_count;
          document_count = r.document_count;
          parsed_path = path;
          parsed_sha256 = sha;
        })
  ]
]

pub record ReadySegmentDescriptor : Type 0 where
  pub batch_id : ℕ
  pub segment_name : Bytes
  pub segment_sha256 : Bytes

unfoldable pub ready_descriptor_of : ℕ → BatchRow → Option ReadySegmentDescriptor
ready_descriptor_of id r = elim r.segment_name [
  | none ↦ none
  | some name ↦ elim r.segment_sha256 [
    | none ↦ none
    | some sha ↦
        if id == 0 || is_empty name || not (length sha == 64)
        then none
        else some (record { batch_id = id; segment_name = name; segment_sha256 = sha })
  ]
]

-- `SELECT … WHERE state = … ORDER BY batch_id ASC` over `count` ids from `id` on; `none` when a row is
-- refused.
unfoldable pub select_rows :
    {D : Type 0}
    → (ℕ → Option BatchRow)
    → BatchState
    → (ℕ → BatchRow → Option D)
    → ℕ
    → ℕ
    → Option (List D)
select_rows rows state read id zero = some []
select_rows rows state read id (suc count) =
    let rest = select_rows rows state read (suc id) count in
    elim (rows id) [
      | none ↦ rest
      | some r ↦
          if same_state r.state state
          then elim (read id r) [
            | none ↦ none
            | some d ↦ elim rest [ none ↦ none | some ds ↦ some (d ∷ ds) ]
          ]
          else rest
    ]

module _ (env : Environment) where
  unfoldable pub list_rows :
      {D : Type 0} → BatchState → (ℕ → BatchRow → Option D) → Action (Option (List D))
  list_rows state read w = elim (env.answer w.tick) [
    | answered ↦ (ok (select_rows w.batches state read 0 w.batch_limit), next_call w)
    | refused ↦ (ok none, next_call w)
    | lost ↦ (ok none, next_call w)
  ]

-- The same with `LIMIT 1`.
unfoldable pub first_row :
    {D : Type 0}
    → (ℕ → Option BatchRow)
    → BatchState
    → (ℕ → BatchRow → Option D)
    → ℕ
    → ℕ
    → Option (Option D)
first_row rows state read id zero = some none
first_row rows state read id (suc count) =
    let rest = first_row rows state read (suc id) count in
    elim (rows id) [
      | none ↦ rest
      | some r ↦
          if same_state r.state state
          then elim (read id r) [ none ↦ none | some d ↦ some (some d) ]
          else rest
    ]
