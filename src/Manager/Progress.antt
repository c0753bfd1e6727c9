-- ===== src/Manager/Progress.antt =====
-- Without failures a round of the recovery decides its batch.
use work_smt.Base.Results.{ok-injective, thrown, Result}
use work_smt.Base.{
  sym, subst, [], ◌∙◌, inl, inr, arith, refl, Bool-cases, ◌||◌, false, true, Option, some, Bool,
  none, ◌≡◌, ℕ,
}
use work_smt.Manager.Repository.{
  index_archives, has_archives, mark_segment_build_failed, same_state, reset_building_batch,
  publish_row, set_row, publish_batch_ready, update_row, execute_changed_update,
}
use work_smt.Manager.Recovery.{Result-cases, load_at-stays, attempt-stays}
use work_smt.Manager.Directories.{
  segment_name_of, published_exists, load_unpublished, set_directory, remove_segment,
}
use work_smt.Manager.Frames.{eq_refl}
use work_smt.Manager.{
  state_unavailable, demand, ParsedBatchDescriptor, IndexWorld, Failure, BatchRow, Action,
  next_call, proceed, Environment, answered, building, parsed, ready, absent, ok,
}
use work_smt.Index.Segments.{LoadedSegment}
use work_smt.Store.Load.{StorePlatform}
use work_smt.Base.Bytes.{Bytes}
use work_smt.Manager.Publish.{recover_batch, attempt, conclude_recovery}

-- Every call of the database is answered, and directories can be read and removed.
pub record IsHealthy (env : Environment) : Type 0 where
  pub answers : (t : ℕ) → env.answer t ≡ answered
  pub removes : (t : ℕ) → env.removal t ≡ none

-- The call has returned, and the batch is no longer BUILDING.
pub record IsDecided (id : ℕ) (x : Result Failure (Unit {0}) × IndexWorld) : Type 0 where
  pub returns : x.0 ≡ ok tt
  pub row : BatchRow
  pub stored : x.1.batches id ≡ some row
  pub decided : same_state row.state building ≡ false

IsDecided-update :
    (env : Environment) (id : ℕ) (update : IndexWorld → Option IndexWorld) (w v : IndexWorld)
    (s : BatchRow)
    → IsHealthy env
    → update w ≡ some v
    → v.batches id ≡ some s
    → same_state s.state building ≡ false
    → IsDecided id (demand state_unavailable (execute_changed_update env update) w)
unfolding execute_changed_update proceed next_call
IsDecided-update env id update w v s h e r d =
    let a = h.answers w.tick in
    rw (execute_changed_update, a, e) (record { returns = refl; row = s; stored = r; decided = d })

-- A statement on the row of a BUILDING batch.
IsDecided-row :
    (env : Environment) (id : ℕ) (test : BatchRow → Bool) (change : BatchRow → BatchRow)
    (w : IndexWorld) (r : BatchRow)
    → IsHealthy env
    → w.batches id ≡ some r
    → test r ≡ true
    → same_state (change r).state building ≡ false
    → IsDecided id
        (demand state_unavailable (execute_changed_update env (update_row id test change)) w)
unfolding update_row set_row
IsDecided-row env id test change w r h e t d =
    let same = eq_refl id in
    IsDecided-update env id (update_row id test change) w (set_row id (change r) w) (change r) h
      (rw (update_row, e, t) refl) (rw same refl) d

module _ (p : StorePlatform) (env : Environment) where
  IsDecided-publish :
      (id : ℕ) (name sha : Bytes) (w : IndexWorld) (r : BatchRow)
      → IsHealthy env
      → w.batches id ≡ some r
      → same_state r.state building ≡ true
      → has_archives id w.archives ≡ true
      → IsDecided id (demand state_unavailable (publish_batch_ready env id name sha) w)
  unfolding publish_batch_ready publish_row update_row set_row same_state
  IsDecided-publish id name sha w r h e b a =
      let same = eq_refl id in
      let row : BatchRow = record r {
        state = ready;
        segment_name = some name;
        segment_sha256 = some sha;
        failure_code = none;
      } in
      let after : IndexWorld = record (set_row id row w) {
        archives = index_archives id w.archives;
      } in
      IsDecided-update env id (publish_row id name sha) w after row h
        (rw (publish_row, update_row, a, e, b) refl) (rw same refl) refl

  conclude_recovery-IsDecided :
      (id : ℕ) (loaded : Option LoadedSegment) (w : IndexWorld) (r : BatchRow)
      → IsHealthy env
      → w.batches id ≡ some r
      → same_state r.state building ≡ true
      → has_archives id w.archives ≡ true
      → IsDecided id (conclude_recovery env id loaded w)
  unfolding conclude_recovery remove_segment proceed set_directory next_call
      mark_segment_build_failed same_state
  conclude_recovery-IsDecided id none w r h e b a =
      let removed = h.removes w.tick in
      let either : (same_state r.state parsed || same_state r.state building) ≡ true =
        ground arith in
      rw (remove_segment, removed)
        (IsDecided-row env id _ _ (next_call (set_directory id absent w)) r h e either refl)
  conclude_recovery-IsDecided id (some g) w r h e b a =
      IsDecided-publish id g.segment_name g.manifest_sha256 w r h e b a

  proceed-IsDecided :
      {A : Type 0} (id : ℕ) (x : Result Failure A × IndexWorld) (f : A → Action (Unit {0})) (o : A)
      → x.0 ≡ ok o
      → IsDecided id (f o x.1)
      → IsDecided id (proceed x f)
  unfolding proceed
  proceed-IsDecided id (thrown e, w) f o h k = cc
  proceed-IsDecided id (ok a, w) f o h k =
      subst (λ z. IsDecided id (f z w)) (sym (ok-injective h)) k

  attempt-returns :
      {A : Type 0} (m : Action A) (w : IndexWorld) → (o : Option A) × ((attempt m w).0 ≡ ok o)
  unfolding attempt
  attempt-returns m w = elim (Result-cases (m w).0) [
    | inl (e, z) ↦ (none, rw (attempt, z) refl)
    | inr (a, z) ↦ (some a, rw (attempt, z) refl)
  ]

  -- When every call of the database is answered and directories can be removed, the round of the
  -- recovery for a BUILDING batch that has archives returns, whatever its directory holds and
  -- whether it can be read, and the batch is no longer BUILDING.
  pub recover_batch-IsDecided :
      (d : ParsedBatchDescriptor) (w : IndexWorld) (r : BatchRow)
      → IsHealthy env
      → w.batches d.batch_id ≡ some r
      → same_state r.state building ≡ true
      → has_archives d.batch_id w.archives ≡ true
      → IsDecided d.batch_id (recover_batch p env d w)
  unfolding recover_batch reset_building_batch load_unpublished next_call same_state proceed
  recover_batch-IsDecided d w r h e b a = elim (Bool-cases (published_exists d.batch_id w)) [
    | inr x ↦ rw (recover_batch, x) (IsDecided-row env d.batch_id _ _ w r h e b refl)
    | inl x ↦
        let m = load_unpublished p env d.batch_id in
        let stays : (attempt m w).1 ≡ next_call w =
          attempt-stays m w ∙ load_at-stays p env d.batch_id (segment_name_of d.batch_id) [] w in
        let (o, y) = attempt-returns m w in
        rw (recover_batch, x)
          (proceed-IsDecided d.batch_id (attempt m w) (conclude_recovery env d.batch_id) o y (
            subst (λ v. IsDecided d.batch_id (conclude_recovery env d.batch_id o v)) (sym stays)
              (conclude_recovery-IsDecided d.batch_id o (next_call w) r h e b a)))
  ]
