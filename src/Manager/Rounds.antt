-- ===== src/Manager/Rounds.antt =====
-- The round of the recovery and of the build for one batch keep READY batches loadable.
use work_smt.Base.{[], ap, ◌∙◌, sym, inl, subst, none, inr, some, refl, Bool-cases, ◌≡◌, Option, ℕ}
use work_smt.Manager.Served.{
  IsStored-next_call, publish_batch_ready-Settled, Idle-trans-Settled, Idle-Settled, IsStored,
  Settled,
}
use work_smt.Base.Results.{ok}
use work_smt.Manager.Recovery.{
  load_unpublished-IsStored, attempt-eq-some, load_at-stays, build_segment-IsStored,
  build_segment-Idle, attempt-stays,
}
use work_smt.Manager.Frames.{
  Idle-refl, Idle-next_call, Idle-trans, demand-keeps, proceed-keeps, remove_segment-Idle,
  update-Idle, NotReady, Idle,
}
use work_smt.Manager.{
  next_call, both_failed, state_unavailable, demand, ◌&>◌, ParsedBatchDescriptor, IndexWorld,
  Failure, Environment,
}
use work_smt.Manager.Directories.{
  load_unpublished, build_segment, published_exists, segment_name_of, remove_segment,
}
use work_smt.Manager.Publish.{
  attempt, give_up_build, recover_batch, conclude_build, build_batch, conclude_recovery,
}
use work_smt.Base.Bytes.{codes, Bytes}
use work_smt.Manager.Repository.{
  publish_batch_ready, mark_batch_building, reset_building_batch, same_state,
  mark_segment_build_failed,
}
use work_smt.Index.Segments.{LoadedSegment}
use work_smt.Store.Load.{StorePlatform}

mark_failed-Idle :
    (env : Environment) (id : ℕ) (code : Bytes) (w : IndexWorld)
    → NotReady w id
    → Idle id w (mark_segment_build_failed env id code w).1
unfolding mark_segment_build_failed same_state
mark_failed-Idle env id code w h = update-Idle env id _ _ w (λ r. refl) h

-- What a failed build and a failed recovery do.
given_up :
    (env : Environment) (e : Failure) (id : ℕ) (code : Bytes) (w : IndexWorld)
    → NotReady w id
    → Idle id w
        ((remove_segment env id &> λ _. demand e (mark_segment_build_failed env id code)) w).1
given_up env e id code w h =
    let removed = remove_segment-Idle env id w h in
    proceed-keeps (Idle id w) (remove_segment env id w) _ removed (λ _ z.
      demand-keeps (Idle id w) e (mark_segment_build_failed env id code) (remove_segment env id w).1
        (Idle-trans id w (remove_segment env id w).1 _ removed
          (mark_failed-Idle env id code (remove_segment env id w).1 removed.idle)))

-- The publication of a segment that stands in its directory.
published :
    (p : StorePlatform) (env : Environment) (id : ℕ) (name sha : Bytes) (u w : IndexWorld)
    → Idle id u w
    → name ≡ segment_name_of id
    → IsStored p id sha w
    → Settled p id u (demand state_unavailable (publish_batch_ready env id name sha) w).1
published p env id name sha u w h e s =
    demand-keeps (Settled p id u) state_unavailable (publish_batch_ready env id name sha) w (
      subst (λ n. Settled p id u (publish_batch_ready env id n sha w).1) (sym e)
        (Idle-trans-Settled p id u w _ h (publish_batch_ready-Settled p env id sha w h.idle s)))

module _ (p : StorePlatform) (env : Environment) where
  recovered :
      (id : ℕ) (u w : IndexWorld) (loaded : Option LoadedSegment)
      → Idle id u w
      → ((g : LoadedSegment)
          → loaded ≡ some g
          → IsStored p id g.manifest_sha256 w × (g.segment_name ≡ segment_name_of id))
      → Settled p id u (conclude_recovery env id loaded w).1
  unfolding conclude_recovery
  recovered id u w none h k = Idle-Settled p id u _ (
      Idle-trans id u w _ h
        (given_up env state_unavailable id (codes "SEGMENT_RECOVERY_CORRUPTED") w h.idle))
  recovered id u w (some g) h k =
      let (s, e) = k g refl in published p env id g.segment_name g.manifest_sha256 u w h e s

  pub recover_batch-Settled :
      (d : ParsedBatchDescriptor) (w : IndexWorld)
      → NotReady w d.batch_id
      → Settled p d.batch_id w (recover_batch p env d w).1
  unfolding recover_batch same_state reset_building_batch load_unpublished
  recover_batch-Settled d w h = elim (Bool-cases (published_exists d.batch_id w)) [
    | inr e ↦
        rw (recover_batch, e)
          (Idle-Settled p d.batch_id w _ (
            demand-keeps (Idle d.batch_id w) state_unavailable
              (reset_building_batch env d.batch_id (codes "SEGMENT_BUILD_INTERRUPTED")) w
              (update-Idle env d.batch_id _ _ w (λ r. refl) h)))
    | inl e ↦
        let m = load_unpublished p env d.batch_id in
        let stays : (attempt m w).1 ≡ next_call w =
          attempt-stays m w ∙ load_at-stays p env d.batch_id (segment_name_of d.batch_id) [] w in
        let idle : Idle d.batch_id w (attempt m w).1 =
          subst (Idle d.batch_id w) (sym stays)
            (Idle-next_call d.batch_id w w (Idle-refl d.batch_id w h)) in
        rw (recover_batch, e)
          (proceed-keeps (Settled p d.batch_id w) (attempt m w) (conclude_recovery env d.batch_id)
            (Idle-Settled p d.batch_id w _ idle)
            (λ loaded z. recovered d.batch_id w (attempt m w).1 loaded idle (λ g y.
              let (s, n) =
                load_unpublished-IsStored p env d.batch_id w g
                  (attempt-eq-some m w g (z ∙ ap ok y)) in
              (
                subst (IsStored p d.batch_id g.manifest_sha256) (sym stays)
                    (IsStored-next_call p d.batch_id g.manifest_sha256 w s),
                n,
              ))))
  ]

  built :
      (id : ℕ) (u w : IndexWorld) (sha : Option Bytes)
      → Idle id u w
      → ((s : Bytes) → sha ≡ some s → IsStored p id s w)
      → Settled p id u (conclude_build env id sha w).1
  unfolding conclude_build give_up_build
  built id u w none h k =
      let gone = given_up env both_failed id (codes "SEGMENT_BUILD_FAILED") w h.idle in
      Idle-Settled p id u _
        (Idle-trans id u w _ h (proceed-keeps (Idle id w) _ _ gone (λ _ z. gone)))
  built id u w (some s) h k = published p env id (segment_name_of id) s u w h refl (k s refl)

  pub build_batch-Settled :
      (d : ParsedBatchDescriptor) (w : IndexWorld)
      → NotReady w d.batch_id
      → Settled p d.batch_id w (build_batch p env d w).1
  unfolding build_batch mark_batch_building same_state
  build_batch-Settled d w h =
      let id = d.batch_id in
      let mark = demand state_unavailable (mark_batch_building env id (segment_name_of id)) in
      let m = build_segment p env d in
      let marked : Idle id w (mark w).1 =
        demand-keeps (Idle id w) state_unavailable (mark_batch_building env id (segment_name_of id))
          w (update-Idle env id _ _ w (λ r. refl) h) in
      let v = (mark w).1 in
      let tried : Idle id w (attempt m v).1 =
        subst (Idle id w) (sym (attempt-stays m v))
          (Idle-trans id w v (m v).1 marked (build_segment-Idle p env d v marked.idle)) in
      proceed-keeps (Settled p id w) (mark w) (λ _. attempt m &> conclude_build env id)
        (Idle-Settled p id w v marked)
        (λ _ z.
          proceed-keeps (Settled p id w) (attempt m v) (conclude_build env id)
            (Idle-Settled p id w _ tried)
            (λ sha y. built id w (attempt m v).1 sha tried (λ s x.
              subst (IsStored p id s) (sym (attempt-stays m v))
                (build_segment-IsStored p env d v s (attempt-eq-some m v s (y ∙ ap ok x))))))
