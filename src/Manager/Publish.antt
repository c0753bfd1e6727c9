-- ===== src/Manager/Publish.antt =====
-- 02_SMT_LogTrace/src/indexing/segment_manager.cpp: the class SegmentManager.
use work_smt.Manager.{
  lost, build_failed, refused, files_unavailable, snapshot_invalid, parsed, next_call, both_failed,
  building, state_unavailable, done, demand, ready, answered, ◌&>◌, throw, ParsedBatchDescriptor,
  thrown, Environment, Action,
}
use work_smt.Manager.Directories.{
  load_unpublished, build_segment, segment_name_of, load_ready, published_exists, remove_segment,
}
use work_smt.Base.{[], true, false, ◌∷◌, some, not, none, if◌then◌else◌, Bool, ℕ, List, Option}
use work_smt.Base.Bytes.{codes, Bytes}
use work_smt.Manager.Repository.{
  reset_building_batch, publish_batch_ready, first_row, mark_batch_building, ready_descriptor_of,
  descriptor_of, mark_segment_build_failed, ReadySegmentDescriptor, list_rows,
}
use work_smt.Index.Snapshot.{make_snapshot}
use work_smt.Store.Load.{StorePlatform}
use work_smt.Index.Segments.{LoadedSegment}
use work_smt.Base.Results.{ok}

unfoldable pub value_or_throw : {A : Type 0} → Option A → Action A
value_or_throw none = throw state_unavailable
value_or_throw (some a) = done a

-- Lists, or throws when the listing fails.
abbrev pub require_list : {A : Type 0} → Action (Option A) → Action A
require_list m = m &> value_or_throw

-- `catch (const std::exception&)` around a call.
unfoldable pub attempt : {A : Type 0} → Action A → Action (Option A)
attempt m w = elim (m w).0 [ thrown e ↦ (ok none, (m w).1) | ok a ↦ (ok (some a), (m w).1) ]

unfoldable pub list_building : Environment → Action (Option (List ParsedBatchDescriptor))
list_building env = list_rows env building descriptor_of

-- `LIMIT 1`.
unfoldable pub first_parsed : Environment → Action (Option (Option ParsedBatchDescriptor))
first_parsed env w = elim (env.answer w.tick) [
  | answered ↦ (ok (first_row w.batches parsed descriptor_of 0 w.batch_limit), next_call w)
  | refused ↦ (ok none, next_call w)
  | lost ↦ (ok none, next_call w)
]

-- What follows `loadUnpublished` in a round of the recovery, `none` in the `catch`.
unfoldable pub conclude_recovery : Environment → ℕ → Option LoadedSegment → Action (Unit {0})
conclude_recovery env id none = remove_segment env id &> λ _.
    demand state_unavailable (mark_segment_build_failed env id (codes "SEGMENT_RECOVERY_CORRUPTED"))
conclude_recovery env id (some g) =
    demand state_unavailable (publish_batch_ready env id g.segment_name g.manifest_sha256)

-- What `buildNext` does when the build has thrown.
unfoldable pub give_up_build : Environment → ℕ → Action (Unit {0})
give_up_build env id =
    (remove_segment env id &> λ _.
    demand both_failed (mark_segment_build_failed env id (codes "SEGMENT_BUILD_FAILED")))
    &> λ _. throw build_failed

unfoldable pub conclude_build : Environment → ℕ → Option Bytes → Action (Unit {0})
conclude_build env id none = give_up_build env id
conclude_build env id (some sha) =
    demand state_unavailable (publish_batch_ready env id (segment_name_of id) sha)

module _ (p : StorePlatform) (env : Environment) where
  -- One round of `recoverBuildingBatches`.
  unfoldable pub recover_batch : ParsedBatchDescriptor → Action (Unit {0})
  recover_batch d w =
      if not (published_exists d.batch_id w)
      then demand state_unavailable
          (reset_building_batch env d.batch_id (codes "SEGMENT_BUILD_INTERRUPTED")) w
      else (attempt (load_unpublished p env d.batch_id) &> conclude_recovery env d.batch_id) w

  unfoldable pub recover_batches : List ParsedBatchDescriptor → Action (Unit {0})
  recover_batches [] = done tt
  recover_batches (d ∷ ds) = recover_batch d &> λ _. recover_batches ds

  unfoldable pub recover_building_batches : Action (Unit {0})
  recover_building_batches = require_list (list_building env) &> recover_batches

  unfoldable pub load_all_ready : List ReadySegmentDescriptor → Action (List (Option LoadedSegment))
  load_all_ready [] = done []
  load_all_ready (d ∷ ds) = load_ready p env d &> λ g. load_all_ready ds &> λ gs. done (some g ∷ gs)

  -- The new snapshot takes the place of the old one.
  unfoldable pub replace_snapshot : List (Option LoadedSegment) → Action (Unit {0})
  replace_snapshot gs w = elim (make_snapshot gs) [
    | none ↦ (thrown snapshot_invalid, w)
    | some s ↦ (ok tt, record w { snapshot = some s })
  ]

  unfoldable pub refresh_snapshot : Action (Unit {0})
  refresh_snapshot = require_list (list_rows env ready ready_descriptor_of) &> λ ds.
      load_all_ready ds &> replace_snapshot

  unfoldable pub scan_directories : Action (Unit {0})
  scan_directories w =
      if env.is_listable w.tick
      then (ok tt, next_call w)
      else (thrown files_unavailable, next_call w)

  -- The audit at the end only writes to the log.
  unfoldable pub recover_and_load : Action (Unit {0})
  recover_and_load = scan_directories &> λ _. recover_building_batches &> λ _.
      refresh_snapshot &> λ _.
      require_list (list_rows env ready ready_descriptor_of) &> λ ready_names. scan_directories

  unfoldable pub build_batch : ParsedBatchDescriptor → Action (Unit {0})
  build_batch d =
      demand state_unavailable (mark_batch_building env d.batch_id (segment_name_of d.batch_id))
      &> λ _. attempt (build_segment p env d) &> conclude_build env d.batch_id

  -- What `buildNext` does with the first PARSED batch; the value says whether a segment was built.
  unfoldable pub continue_build : Option ParsedBatchDescriptor → Action Bool
  continue_build none = done false
  continue_build (some d) = build_batch d &> λ _. refresh_snapshot &> λ _. done true

  unfoldable pub build_next : Action Bool
  build_next = recover_building_batches &> λ _. require_list (first_parsed env) &> continue_build
