-- ===== src/Manager/Snapshot.antt =====
-- The snapshot that the segment manager publishes has only segments that the store has loaded.
use work_smt.Manager.{◌&>◌, IndexWorld, Environment, ready}
use work_smt.Manager.Recovery.{load_at-eq-ok, load_at-stays}
use work_smt.Manager.Publish.{require_list, refresh_snapshot, replace_snapshot, load_all_ready}
use work_smt.Base.{
  refl, none, All-append, inr, sym, not, ◌||◌, [], leb, inl, subst, Option-cases, ◌==◌, Bool-cases,
  All, ◌∷◌, some, ◌≡◌, List, ℕ, Option,
}
use work_smt.Store.Codec.{valid_sha256}
use work_smt.Manager.Directories.{segment_name_of, load_ready}
use work_smt.Manager.Published.{
  IsPublished-next_call, list_rows-stays, proceed-eq-ok, require_list-keeps, IsPublished,
}
use work_smt.Base.Bytes.{bytes_eq}
use work_smt.Base.Results.{ok-injective, ok}
use work_smt.Manager.Repository.{ready_descriptor_of, list_rows, ReadySegmentDescriptor}
use work_smt.Manager.Frames.{proceed-keeps}
use work_smt.Store.Load.Searchable.{IsLoaded}
use work_smt.Index.Snapshot.{
  empty_snapshot, IndexSnapshot, make_snapshot, add_segment, add_segments,
}
use work_smt.Store.Load.{StorePlatform}
use work_smt.Index.Segments.{LoadedSegment}
use mathlib.Core.Option.{some-injective}

-- The entry is a segment that the store has loaded.
abbrev pub IsLoadedEntry : StorePlatform → Option LoadedSegment → Type 0
IsLoadedEntry p o = (g : LoadedSegment) → o ≡ some g → IsLoaded p g

add_segments-IsLoaded :
    (p : StorePlatform) (previous : ℕ) (s r : IndexSnapshot) (gs : List (Option LoadedSegment))
    → add_segments previous s gs ≡ some r
    → All (IsLoaded p) s.segments
    → All (IsLoadedEntry p) gs
    → All (IsLoaded p) r.segments
unfolding add_segments add_segment
add_segments-IsLoaded p previous s r [] h a b =
    subst (λ (z : IndexSnapshot). All (IsLoaded p) z.segments) (some-injective s r h) a
add_segments-IsLoaded p previous s r (none ∷ gs) h a b = cc
add_segments-IsLoaded p previous s r (some g ∷ gs) h a b =
    elim (Bool-cases (leb g.batch_id previous)) [
      | inl e ↦ let k = rw (add_segments, e) at h in cc
      | inr e ↦
          add_segments-IsLoaded p g.batch_id (add_segment s g) r gs (rw (add_segments, e) at h)
            (All-append (IsLoaded p) s.segments (g ∷ []) a (b.0 g refl, tt)) b.1
    ]

module _ (p : StorePlatform) (env : Environment) where
  load_ready-keeps :
      (d : ReadySegmentDescriptor) (w : IndexWorld)
      → IsPublished p w
      → IsPublished p (load_ready p env d w).1
  unfolding load_ready
  load_ready-keeps d w h =
      elim (Bool-cases (
        d.batch_id == 0
        || not (bytes_eq d.segment_name (segment_name_of d.batch_id))
        || not (valid_sha256 d.segment_sha256))) [
          | inl e ↦ rw (load_ready, e) h
          | inr e ↦
              rw (load_ready, e)
                (subst (IsPublished p)
                  (sym (load_at-stays p env d.batch_id d.segment_name d.segment_sha256 w))
                  (IsPublished-next_call p w h))
        ]

  load_ready-IsLoaded :
      (d : ReadySegmentDescriptor) (w : IndexWorld) (g : LoadedSegment)
      → (load_ready p env d w).0 ≡ ok g
      → IsLoaded p g
  unfolding load_ready
  load_ready-IsLoaded d w g h =
      elim (Bool-cases (
        d.batch_id == 0
        || not (bytes_eq d.segment_name (segment_name_of d.batch_id))
        || not (valid_sha256 d.segment_sha256))) [
          | inl e ↦ let k = rw (load_ready, e) at h in cc
          | inr e ↦
              let (files, stored, loads) =
                load_at-eq-ok p env d.batch_id d.segment_name d.segment_sha256 w g
                  (rw (load_ready, e) at h) in
              record {
                name = d.segment_name;
                batch_id = d.batch_id;
                sha = d.segment_sha256;
                contents = files;
                loads = loads;
              }
        ]

  load_all_ready-keeps :
      (ds : List ReadySegmentDescriptor) (w : IndexWorld)
      → IsPublished p w
      → IsPublished p (load_all_ready p env ds w).1
  unfolding load_all_ready
  load_all_ready-keeps [] w h = h
  load_all_ready-keeps (d ∷ ds) w h =
      let first = load_ready-keeps d w h in
      proceed-keeps (IsPublished p) (load_ready p env d w) _ first (λ g e.
        let rest = load_all_ready-keeps ds (load_ready p env d w).1 first in
        proceed-keeps (IsPublished p) (load_all_ready p env ds (load_ready p env d w).1) _ rest
          (λ gs z. rest))

  load_all_ready-IsLoaded :
      (ds : List ReadySegmentDescriptor) (w : IndexWorld) (gs : List (Option LoadedSegment))
      → (load_all_ready p env ds w).0 ≡ ok gs
      → All (IsLoadedEntry p) gs
  unfolding load_all_ready
  load_all_ready-IsLoaded [] w gs h = subst (All (IsLoadedEntry p)) (ok-injective h) tt
  load_all_ready-IsLoaded (d ∷ ds) w gs h =
      let (g, e, k) = proceed-eq-ok (load_ready p env d w) _ gs h in
      let (rest, e₂, k₂) =
        proceed-eq-ok (load_all_ready p env ds (load_ready p env d w).1) _ gs k in
      let here = load_ready-IsLoaded d w g e in
      subst (All (IsLoadedEntry p)) (ok-injective k₂) (
        (λ x z. subst (IsLoaded p) (some-injective g x z) here),
        load_all_ready-IsLoaded ds (load_ready p env d w).1 rest e₂,
      )

  replace_snapshot-IsPublished :
      (gs : List (Option LoadedSegment)) (w : IndexWorld)
      → IsPublished p w
      → All (IsLoadedEntry p) gs
      → IsPublished p (replace_snapshot p env gs w).1
  unfolding replace_snapshot make_snapshot empty_snapshot
  replace_snapshot-IsPublished gs w h a = elim (Option-cases (make_snapshot gs)) [
    | inl e ↦ rw (replace_snapshot, e) h
    | inr (s, e) ↦
        rw (replace_snapshot, e)
          (record {
            served = h.served;
            loaded = λ x z.
                subst (λ (y : IndexSnapshot). All (IsLoaded p) y.segments) (some-injective s x z)
                  (add_segments-IsLoaded p 0 empty_snapshot s gs e tt a);
          })
  ]

  pub refresh_snapshot-IsPublished :
      (w : IndexWorld) → IsPublished p w → IsPublished p (refresh_snapshot p env w).1
  unfolding refresh_snapshot
  refresh_snapshot-IsPublished w h =
      let listing = list_rows env ready ready_descriptor_of in
      let listed = require_list-keeps (IsPublished p) listing w (
        subst (IsPublished p) (sym (list_rows-stays env ready ready_descriptor_of w))
          (IsPublished-next_call p w h)) in
      let v = (require_list listing w).1 in
      proceed-keeps (IsPublished p) (require_list listing w)
        (λ ds. load_all_ready p env ds &> replace_snapshot p env) listed
        (λ ds e.
          let loaded = load_all_ready-keeps ds v listed in
          proceed-keeps (IsPublished p) (load_all_ready p env ds v) (replace_snapshot p env) loaded
            (λ gs z.
              replace_snapshot-IsPublished gs (load_all_ready p env ds v).1 loaded
                (load_all_ready-IsLoaded ds v gs z)))
