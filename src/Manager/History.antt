-- ===== src/Manager/History.antt =====
-- The state after any sequence of the segment manager's operations.
use work_smt.Base.Results.{ok}
use work_smt.Base.{
  ap, ◌∙◌, refl, none, sym, subst, inr, some, ◌≡◌, [], inl, Bool-cases, ◌∷◌, Option, List,
}
use work_smt.Manager.Published.{
  first-eq-ok, listing-eq-ok, NotReady-next_call, IsPublished-Settled, require_list-keeps,
  IsPublished-next_call, list_rows-stays, first_parsed-stays, IsPublished,
}
use work_smt.Manager.Listing.{first_row-NotReady, select_rows-Pending, Pending-Local, Pending}
use work_smt.Store.Load.Searchable.{search_segments-IsLoaded}
use work_smt.Manager.Rounds.{build_batch-Settled, recover_batch-Settled}
use work_smt.Manager.Publish.{
  build_batch, first_parsed, recover_batch, require_list, list_building, refresh_snapshot,
  scan_directories, recover_building_batches, recover_and_load, build_next, continue_build,
  recover_batches,
}
use work_smt.Search.Segment.Scan.{scan_all}
use work_smt.Search.Segment.{search_segments}
use work_smt.Manager.Frames.{NotReady, proceed-keeps}
use work_smt.Base.Bytes.{Bytes}
use work_smt.Search.Query.{SearchQuery}
use work_smt.Manager.Repository.{ready_descriptor_of, descriptor_of, list_rows}
use work_smt.Manager.{ParsedBatchDescriptor, Environment, IndexWorld, next_call, ready, building}
use work_smt.Manager.Snapshot.{refresh_snapshot-IsPublished}
use work_smt.Index.Snapshot.{IndexSnapshot}
use work_smt.Store.Load.{StorePlatform}

recover_batches-IsPublished :
    (p : StorePlatform) (env : Environment) (ds : List ParsedBatchDescriptor) (w : IndexWorld)
    → Pending w ds
    → IsPublished p w
    → IsPublished p (recover_batches p env ds w).1
unfolding recover_batches
recover_batches-IsPublished p env [] w d h = h
recover_batches-IsPublished p env (d ∷ ds) w pending h =
    let (idle, others, rest) = pending in
    let settled = recover_batch-Settled p env d w idle in
    let v = (recover_batch p env d w).1 in
    let after = IsPublished-Settled p d.batch_id w v h settled in
    proceed-keeps (IsPublished p) (recover_batch p env d w) _ after (λ u e.
      recover_batches-IsPublished p env ds v
        (Pending-Local w v d.batch_id ds settled.kept others rest) after)

Pending-next_call :
    (w : IndexWorld) (ds : List ParsedBatchDescriptor) → Pending w ds → Pending (next_call w) ds
unfolding next_call
Pending-next_call w [] h = tt
Pending-next_call w (d ∷ ds) h = let (a, b, c) = h in (a, b, Pending-next_call w ds c)

module _ (p : StorePlatform) (env : Environment) where
  recover_building-IsPublished :
      (w : IndexWorld) → IsPublished p w → IsPublished p (recover_building_batches p env w).1
  unfolding recover_building_batches list_building
  recover_building-IsPublished w h =
      let listing = list_rows env building descriptor_of in
      let stays = list_rows-stays env building descriptor_of w in
      let listed : IsPublished p (require_list listing w).1 =
        require_list-keeps (IsPublished p) listing w
          (subst (IsPublished p) (sym stays) (IsPublished-next_call p w h)) in
      proceed-keeps (IsPublished p) (require_list listing w) (recover_batches p env) listed (λ ds e.
        let (pending, above) =
          select_rows-Pending w 0 w.batch_limit ds
            (listing-eq-ok env building descriptor_of w ds e) in
        recover_batches-IsPublished p env ds (require_list listing w).1
          (require_list-keeps (λ v. Pending v ds) listing w
            (subst (λ v. Pending v ds) (sym stays) (Pending-next_call w ds pending)))
          listed)

  scan_directories-IsPublished :
      (w : IndexWorld) → IsPublished p w → IsPublished p (scan_directories p env w).1
  unfolding scan_directories
  scan_directories-IsPublished w h = elim (Bool-cases (env.is_listable w.tick)) [
    | inl e ↦ rw (scan_directories, e) (IsPublished-next_call p w h)
    | inr e ↦ rw (scan_directories, e) (IsPublished-next_call p w h)
  ]

  recover_and_load-IsPublished :
      (w : IndexWorld) → IsPublished p w → IsPublished p (recover_and_load p env w).1
  unfolding recover_and_load
  recover_and_load-IsPublished w h =
      let J = IsPublished p in
      let listing = list_rows env ready ready_descriptor_of in
      let a = scan_directories-IsPublished w h in
      let w₁ = (scan_directories p env w).1 in
      proceed-keeps J (scan_directories p env w) _ a (λ _ e₁.
        let b = recover_building-IsPublished w₁ a in
        let w₂ = (recover_building_batches p env w₁).1 in
        proceed-keeps J (recover_building_batches p env w₁) _ b (λ _ e₂.
          let c = refresh_snapshot-IsPublished p env w₂ b in
          let w₃ = (refresh_snapshot p env w₂).1 in
          proceed-keeps J (refresh_snapshot p env w₂) _ c (λ _ e₃.
            let d : J (require_list listing w₃).1 = require_list-keeps J listing w₃ (
              subst J (sym (list_rows-stays env ready ready_descriptor_of w₃))
                (IsPublished-next_call p w₃ c)) in
            proceed-keeps J (require_list listing w₃) _ d
              (λ _ e₄. scan_directories-IsPublished (require_list listing w₃).1 d))))

  build_found :
      (o : Option ParsedBatchDescriptor) (w : IndexWorld)
      → ((d : ParsedBatchDescriptor) → o ≡ some d → NotReady w d.batch_id)
      → IsPublished p w
      → IsPublished p (continue_build p env o w).1
  unfolding continue_build
  build_found none w k h = h
  build_found (some d) w k h =
      let v = (build_batch p env d w).1 in
      let a = IsPublished-Settled p d.batch_id w v h (build_batch-Settled p env d w (k d refl)) in
      proceed-keeps (IsPublished p) (build_batch p env d w) _ a (λ _ e.
        let b = refresh_snapshot-IsPublished p env v a in
        proceed-keeps (IsPublished p) (refresh_snapshot p env v) _ b (λ _ e₂. b))

  build_next-IsPublished : (w : IndexWorld) → IsPublished p w → IsPublished p (build_next p env w).1
  unfolding build_next
  build_next-IsPublished w h =
      let J = IsPublished p in
      let a = recover_building-IsPublished w h in
      let v = (recover_building_batches p env w).1 in
      proceed-keeps J (recover_building_batches p env w) _ a (λ _ e.
        let stays = first_parsed-stays env v in
        let b : J (require_list (first_parsed env) v).1 =
          require_list-keeps J (first_parsed env) v
            (subst J (sym stays) (IsPublished-next_call p v a)) in
        proceed-keeps J (require_list (first_parsed env) v) (continue_build p env) b (λ o z.
          build_found o (require_list (first_parsed env) v).1
            (λ d y.
              require_list-keeps (λ u. NotReady u d.batch_id) (first_parsed env) v
                (subst (λ u. NotReady u d.batch_id) (sym stays)
                  (NotReady-next_call v d.batch_id (
                    first_row-NotReady v 0 v.batch_limit d
                      (first-eq-ok env v (some d) (z ∙ ap ok y))))))
            b))

-- An operation of the segment manager. Its exceptions end in the log of the caller.
pub data Operation : Type 0 where
  recovers_and_loads : Operation
  builds_next : Operation
  refreshes : Operation

module _ (p : StorePlatform) (env : Environment) where
  abbrev pub perform : Operation → IndexWorld → IndexWorld
  perform recovers_and_loads w = (recover_and_load p env w).1
  perform builds_next w = (build_next p env w).1
  perform refreshes w = (refresh_snapshot p env w).1

  abbrev pub run : List Operation → IndexWorld → IndexWorld
  run [] w = w
  run (o ∷ os) w = run os (perform o w)

  perform-IsPublished :
      (o : Operation) (w : IndexWorld) → IsPublished p w → IsPublished p (perform o w)
  perform-IsPublished recovers_and_loads w h = recover_and_load-IsPublished p env w h
  perform-IsPublished builds_next w h = build_next-IsPublished p env w h
  perform-IsPublished refreshes w h = refresh_snapshot-IsPublished p env w h

  -- Whatever the database, the file system and the builds do at each call, a lost answer and a half
  -- removed directory among it: when every READY batch has a segment that can be loaded and the
  -- snapshot has only segments that the store has loaded, both still hold after any sequence of
  -- recoveries, builds and refreshes, also of such as end with an exception.
  pub run-IsPublished :
      (os : List Operation) (w : IndexWorld) → IsPublished p w → IsPublished p (run os w)
  run-IsPublished [] w h = h
  run-IsPublished (o ∷ os) w h = run-IsPublished os (perform o w) (perform-IsPublished o w h)

  -- After any such sequence from such a state, the search of the published snapshot stays inside of
  -- its tables and selects exactly the documents that the scans of all its segments select.
  pub run-search_segments :
      (os : List Operation) (w : IndexWorld) (s : IndexSnapshot) (query : SearchQuery)
      (words : List Bytes)
      → IsPublished p w
      → (run os w).snapshot ≡ some s
      → search_segments s.segments query words ≡ some (scan_all s.segments query words)
  run-search_segments os w s query words h e =
      search_segments-IsLoaded p s.segments query words ((run-IsPublished os w h).loaded s e)
