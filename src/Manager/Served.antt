-- ===== src/Manager/Served.antt =====
-- READY batches have a segment that can be loaded: what the calls for one batch keep.
use work_smt.Base.{
  refl, ◌∙◌, ap, subst, Option-cases, none, inl, inr, true, Bool-cases, some, ◌≡◌, ℕ,
}
use work_smt.Manager.Frames.{
  eq_refl, set_row-Local, update_row-eq-some, Idle-refl, execute_changed_update-keeps, NotReady,
  Local-trans, Local, Idle,
}
use mathlib.Core.Option.{some-injective}
use work_smt.Manager.Repository.{
  index_archives, update_row, has_archives, same_state, set_row, publish_batch_ready, publish_row,
}
use work_smt.Manager.{
  building, ready, complete, Directory, BatchRow, IndexWorld, Environment, next_call,
}
use work_smt.Base.Results.{ok}
use work_smt.Index.Segments.{LoadedSegment}
use work_smt.Store.Load.{load_segment, SegmentFiles, StorePlatform}
use work_smt.Manager.Directories.{segment_name_of}
use work_smt.Base.Bytes.{Bytes}

-- The directory holds the segment that the row names, with the digest of its manifest.
pub record IsServed (p : StorePlatform) (k : ℕ) (r : BatchRow) (d : Directory) : Type 0 where
  pub files : SegmentFiles
  pub sha : Bytes
  pub segment : LoadedSegment
  pub named : r.segment_name ≡ some (segment_name_of k)
  pub digest : r.segment_sha256 ≡ some sha
  pub stored : d ≡ complete files
  pub loads : load_segment p (segment_name_of k) k sha files ≡ ok segment

-- If the batch is READY, its segment can be loaded.
abbrev pub Good : StorePlatform → IndexWorld → ℕ → Type 0
Good p w k =
    (r : BatchRow)
    → w.batches k ≡ some r
    → same_state r.state ready ≡ true
    → IsServed p k r (w.directories k)

-- Calls for the batch have left it so.
pub record Settled (p : StorePlatform) (id : ℕ) (w v : IndexWorld) : Type 0 where
  pub kept : Local id w v
  pub good : Good p v id

pub Settled-next_call :
    (p : StorePlatform) (id : ℕ) (w v : IndexWorld)
    → Settled p id w v
    → Settled p id w (next_call v)
unfolding next_call
Settled-next_call p id w v h = record {
  kept = record {
    rows = h.kept.rows;
    directories = h.kept.directories;
    snapshot = h.kept.snapshot;
  };
  good = h.good;
}

pub Idle-Settled : (p : StorePlatform) (id : ℕ) (w v : IndexWorld) → Idle id w v → Settled p id w v
Idle-Settled p id w v h = record { kept = h.kept; good = λ r e s. let n = h.idle r e in cc }

pub Idle-trans-Settled :
    (p : StorePlatform) (id : ℕ) (u v w : IndexWorld)
    → Idle id u v
    → Settled p id v w
    → Settled p id u w
Idle-trans-Settled p id u v w a b = record {
  kept = Local-trans id u v w a.kept b.kept;
  good = b.good;
}

-- The directory of a batch can be loaded under a digest.
pub record IsStored (p : StorePlatform) (id : ℕ) (sha : Bytes) (w : IndexWorld) : Type 0 where
  pub files : SegmentFiles
  pub segment : LoadedSegment
  pub stored : w.directories id ≡ complete files
  pub loads : load_segment p (segment_name_of id) id sha files ≡ ok segment

pub IsStored-next_call :
    (p : StorePlatform) (id : ℕ) (sha : Bytes) (w : IndexWorld)
    → IsStored p id sha w
    → IsStored p id sha (next_call w)
unfolding next_call
IsStored-next_call p id sha w s = record {
  files = s.files;
  segment = s.segment;
  stored = s.stored;
  loads = s.loads;
}

publish_row-Settled :
    (p : StorePlatform) (id : ℕ) (sha : Bytes) (w v : IndexWorld)
    → IsStored p id sha w
    → publish_row id (segment_name_of id) sha w ≡ some v
    → Settled p id w v
unfolding publish_row set_row
publish_row-Settled p id sha w v s h = elim (Bool-cases (has_archives id w.archives)) [
  | inr a ↦ let k = rw (publish_row, a) at h in cc
  | inl a ↦
      let change : BatchRow → BatchRow = λ r. record r {
        state = ready;
        segment_name = some (segment_name_of id);
        segment_sha256 = some sha;
        failure_code = none;
      } in
      let update = update_row id (λ r. same_state r.state building) change w in
      elim (Option-cases update) [
        | inl e ↦ let k = rw (publish_row, a, e) at h in cc
        | inr (u, e) ↦
            let (r, same) = update_row-eq-some id (λ r. same_state r.state building) change w u e in
            let indexed : IndexWorld → IndexWorld =
              λ z. record z { archives = index_archives id z.archives } in
            let whole = some-injective (indexed u) v (rw (publish_row, a, e) at h) in
            subst (Settled p id w) (ap indexed same ∙ whole) (record {
              kept = record {
                rows = (set_row-Local id (change r) w).rows;
                directories = λ k e. refl;
                snapshot = refl;
              };
              good = λ t e₂ g.
                  let row = some-injective (change r) t (rw (eq_refl id) at e₂) in
                  subst (λ z. IsServed p id z (w.directories id)) row
                    (record {
                      files = s.files;
                      sha = sha;
                      segment = s.segment;
                      named = refl;
                      digest = refl;
                      stored = s.stored;
                      loads = s.loads;
                    });
            })
      ]
]

pub publish_batch_ready-Settled :
    (p : StorePlatform) (env : Environment) (id : ℕ) (sha : Bytes) (w : IndexWorld)
    → NotReady w id
    → IsStored p id sha w
    → Settled p id w (publish_batch_ready env id (segment_name_of id) sha w).1
unfolding publish_batch_ready
publish_batch_ready-Settled p env id sha w n s =
    execute_changed_update-keeps env (Settled p id w) (publish_row id (segment_name_of id) sha) w
      (Settled-next_call p id w) (Idle-Settled p id w w (Idle-refl id w n))
      (λ v e. publish_row-Settled p id sha w v s e)
