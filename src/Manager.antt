-- ===== src/Manager.antt =====
-- 02_SMT_LogTrace/src/indexing/segment_manager.cpp and the parts of index_state_repository.cpp and
-- segment_store.cpp that it calls: the batches of the state database, the segment directories and the
-- published snapshot, as one state. Every call of the database and of the file system may fail.
pub mod Repository
pub mod Directories
pub mod Publish
pub mod Frames
pub mod Served
pub mod Recovery
pub mod Rounds
pub mod Listing
pub mod Published
pub mod Snapshot
pub mod History
pub mod Progress
use work_smt.Index.Snapshot.{IndexSnapshot}
use work_smt.Base.{List, if◌then◌else◌, Option, suc, ℕ, Bool}
use work_smt.Base.Bytes.{Bytes}
use work_smt.Base.Results.{Result, ok, thrown}
use work_smt.Store.Load.{SegmentFiles}

pub data BatchState : Type 0 where
  parsing : BatchState
  parsed : BatchState
  building : BatchState
  ready : BatchState
  failed : BatchState

-- A row of the table `index_batch`; digests are their hexadecimal texts.
pub record BatchRow : Type 0 where
  pub first_archive_id : ℕ
  pub last_archive_id : ℕ
  pub source_file_count : ℕ
  pub document_count : ℕ
  pub state : BatchState
  pub parsed_path : Option Bytes
  pub parsed_sha256 : Option Bytes
  pub segment_name : Option Bytes
  pub segment_sha256 : Option Bytes
  pub failure_code : Option Bytes

pub data ArchiveState : Type 0 where
  archive_pending : ArchiveState
  archive_parsed : ArchiveState
  archive_indexed : ArchiveState
  archive_failed : ArchiveState

-- A row of the table `indexed_archive`.
pub record ArchiveRow : Type 0 where
  pub archive_id : ℕ
  pub batch_id : ℕ
  pub state : ArchiveState

-- What stands at the path of a segment: nothing, a directory without some of the files, or one with
-- all of them.
pub data Directory : Type 0 where
  absent : Directory
  incomplete : Directory
  complete : SegmentFiles → Directory

pub record IndexWorld : Type 0 where
  -- The number of the next call.
  pub tick : ℕ
  -- The table `index_batch` by its primary key, whose values are below `batch_limit`.
  pub batches : ℕ → Option BatchRow
  pub batch_limit : ℕ
  pub archives : List ArchiveRow
  -- The directories under `segments/` by the batch whose name they have.
  pub directories : ℕ → Directory
  pub snapshot : Option IndexSnapshot

pub data Failure : Type 0 where
  state_unavailable : Failure
  both_failed : Failure
  build_failed : Failure
  segment_invalid : Failure
  snapshot_invalid : Failure
  files_unavailable : Failure

-- What a call of the database does: it is answered, it is not carried out, or it is carried out and its
-- answer is lost.
pub data Answer : Type 0 where
  answered : Answer
  refused : Answer
  lost : Answer

pub record ParsedBatchDescriptor : Type 0 where
  pub batch_id : ℕ
  pub first_archive_id : ℕ
  pub last_archive_id : ℕ
  pub source_file_count : ℕ
  pub document_count : ℕ
  pub parsed_path : Bytes
  pub parsed_sha256 : Bytes

-- How the reading of the parsed batch and the writing of the segment end: with an exception and what is
-- left at the path of the segment, or with the files in the building directory.
pub data Writing : Type 0 where
  stops : Directory → Writing
  writes : SegmentFiles → Writing

-- What the database and the file system do at each call.
pub record Environment : Type 0 where
  pub answer : ℕ → Answer
  -- The files of a directory can be read.
  pub is_readable : ℕ → Bool
  -- `none` when the removal succeeds, else what it leaves.
  pub removal : ℕ → Option Directory
  pub write : ℕ → ParsedBatchDescriptor → Writing
  -- `cleanupBuilding` and `listPublishedNames` do not throw.
  pub is_listable : ℕ → Bool

-- A call: an exception or a value, and the state after it.
abbrev pub Action : Type 0 → Type 0
Action A = IndexWorld → Result Failure A × IndexWorld

-- The rest of a chain, unless what stands before it has thrown.
unfoldable pub proceed :
    {A B : Type 0} → Result Failure A × IndexWorld → (A → Action B) → Result Failure B × IndexWorld
proceed (thrown e, w) f = (thrown e, w)
proceed (ok a, w) f = f a w

infixl 1 ◌&>◌
abbrev pub ◌&>◌ : {A B : Type 0} → Action A → (A → Action B) → Action B
m &> f = λ w. proceed (m w) f

abbrev pub done : {A : Type 0} → A → Action A
done a w = (ok a, w)

abbrev pub throw : {A : Type 0} → Failure → Action A
throw e w = (thrown e, w)

-- Throws when the call has answered `false`.
abbrev pub demand : Failure → Action Bool → Action (Unit {0})
demand e m = m &> λ b. if b then done tt else throw e

unfoldable pub next_call : IndexWorld → IndexWorld
next_call w = record w { tick = suc w.tick }
