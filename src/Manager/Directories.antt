-- ===== src/Manager/Directories.antt =====
-- 02_SMT_LogTrace/src/indexing/segment_store.cpp: SegmentStore as the segment manager calls it. The
-- reading of the parsed batch and the writing of the files enter as their outcome.
pub mod Names
use work_smt.Base.{
  zero, ltb, ◌/◌, some, true, not, ◌∷◌, ◌%◌, ◌||◌, false, ◌==◌, ◌+◌, ◌++◌, [], if◌then◌else◌, suc,
  none, Bool, ℕ,
}
use work_smt.Manager.{
  throw, incomplete, files_unavailable, complete, writes, next_call, segment_invalid, build_failed,
  absent, stops, Action, IndexWorld, Directory, ParsedBatchDescriptor, Environment,
}
use work_smt.Store.Codec.{valid_sha256}
use work_smt.Base.Bytes.{bytes_eq, codes, Bytes}
use work_smt.Base.Results.{thrown, ok}
use work_smt.Index.Segments.{LoadedSegment}
use work_smt.Store.Load.{load_segment, StorePlatform}
use work_smt.Manager.Repository.{ReadySegmentDescriptor}

-- The decimal digits of a number, in front of `digits`.
unfoldable pub digits_from : ℕ → ℕ → Bytes → Bytes
digits_from zero n digits = digits
digits_from (suc fuel) n digits =
    let all = (b'0' + n % 10) ∷ digits in
    let rest = digits_from fuel (n / 10) all in if ltb n 10 then all else rest

-- `"segment_" + std::to_string(batch_id)`.
unfoldable pub segment_name_of : ℕ → Bytes
segment_name_of id = codes "segment_" ++ digits_from 20 id []

unfoldable pub set_directory : ℕ → Directory → IndexWorld → IndexWorld
set_directory id d w = record w { directories = λ k. if k == id then d else w.directories k }

unfoldable pub published_exists : ℕ → IndexWorld → Bool
published_exists id w = elim (w.directories id) [
  | absent ↦ false
  | incomplete ↦ true
  | complete files ↦ true
]

module _ (env : Environment) where
  unfoldable pub remove_segment : ℕ → Action (Unit {0})
  remove_segment id w = elim (env.removal w.tick) [
    | none ↦ (ok tt, next_call (set_directory id absent w))
    | some left ↦ (thrown files_unavailable, next_call (set_directory id left w))
  ]

module _ (p : StorePlatform) (env : Environment) where
  -- `loadAtPath` on the directory of a batch.
  unfoldable pub load_at : ℕ → Bytes → Bytes → Action LoadedSegment
  load_at id name sha w = elim (w.directories id) [
    | absent ↦ (thrown segment_invalid, next_call w)
    | incomplete ↦ (thrown segment_invalid, next_call w)
    | complete files ↦ elim (env.is_readable w.tick) [
      | false ↦ (thrown segment_invalid, next_call w)
      | true ↦ elim (load_segment p name id sha files) [
        | thrown e ↦ (thrown segment_invalid, next_call w)
        | ok g ↦ (ok g, next_call w)
      ]
    ]
  ]

  unfoldable pub load_unpublished : ℕ → Action LoadedSegment
  load_unpublished id = load_at id (segment_name_of id) []

  unfoldable pub load_ready : ReadySegmentDescriptor → Action LoadedSegment
  load_ready d =
      if d.batch_id == 0
        || not (bytes_eq d.segment_name (segment_name_of d.batch_id))
        || not (valid_sha256 d.segment_sha256)
      then throw segment_invalid
      else load_at d.batch_id d.segment_name d.segment_sha256

  -- The reading of the parsed batch and `SegmentStore::build`: the segment is loaded from its building
  -- directory before the rename. The value is the digest of the manifest.
  unfoldable pub build_segment : ParsedBatchDescriptor → Action Bytes
  build_segment d w = elim (env.write w.tick d) [
    | stops left ↦ (thrown build_failed, next_call (set_directory d.batch_id left w))
    | writes files ↦
        let sha = p.sha256_hex files.manifest in
        elim (load_segment p (segment_name_of d.batch_id) d.batch_id sha files) [
          | thrown e ↦ (thrown build_failed, next_call (set_directory d.batch_id absent w))
          | ok g ↦ (ok sha, next_call (set_directory d.batch_id (complete files) w))
        ]
  ]
