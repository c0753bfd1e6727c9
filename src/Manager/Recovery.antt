-- ===== src/Manager/Recovery.antt =====
-- The rounds of the recovery and of the build for one batch, however their calls end.
use work_smt.Base.{ap, subst, [], ◌∙◌, Bool-cases, refl, inr, some, inl, ℕ, ◌⊎◌, ◌≡◌}
use work_smt.Manager.Frames.{eq_refl, set_directory-Idle, Idle-next_call, Idle, NotReady}
use work_smt.Store.Load.Digest.{load_segment-HasDigest}
use work_smt.Base.Results.{ok-injective, Result, thrown, ok}
use work_smt.Manager.Directories.{
  segment_name_of, set_directory, build_segment, load_unpublished, load_at,
}
use work_smt.Manager.Served.{IsStored}
use work_smt.Index.Segments.{LoadedSegment}
use work_smt.Store.Load.{load_segment, SegmentFiles, StorePlatform}
use work_smt.Base.Bytes.{Bytes}
use work_smt.Manager.{
  ParsedBatchDescriptor, IndexWorld, next_call, Environment, Action, Directory, Writing, absent,
  incomplete, complete, stops, writes,
}
use work_smt.Manager.Publish.{attempt}

pub Result-cases :
    {E A : Type 0} (r : Result E A) → ((e : E) × (r ≡ thrown e)) ⊎ ((a : A) × (r ≡ ok a))
Result-cases (thrown e) = inl (e, refl)
Result-cases (ok a) = inr (a, refl)

Directory-cases :
    (d : Directory)
    → ((d ≡ absent) ⊎ (d ≡ incomplete)) ⊎ ((files : SegmentFiles) × (d ≡ complete files))
Directory-cases absent = inl (inl refl)
Directory-cases incomplete = inl (inr refl)
Directory-cases (complete files) = inr (files, refl)

Writing-cases :
    (x : Writing)
    → ((left : Directory) × (x ≡ stops left)) ⊎ ((files : SegmentFiles) × (x ≡ writes files))
Writing-cases (stops left) = inl (left, refl)
Writing-cases (writes files) = inr (files, refl)

pub attempt-stays : {A : Type 0} (m : Action A) (w : IndexWorld) → (attempt m w).1 ≡ (m w).1
unfolding attempt
attempt-stays m w = elim (Result-cases (m w).0) [
  | inl (e, z) ↦ rw (attempt, z) refl
  | inr (a, z) ↦ rw (attempt, z) refl
]

pub attempt-eq-some :
    {A : Type 0} (m : Action A) (w : IndexWorld) (a : A)
    → (attempt m w).0 ≡ ok (some a)
    → (m w).0 ≡ ok a
unfolding attempt
attempt-eq-some m w a h = elim (Result-cases (m w).0) [
  | inl (e, z) ↦ let k = rw (attempt, z) at h in cc
  | inr (b, z) ↦ let k = rw (attempt, z) at h in cc
]

pub load_at-stays :
    (p : StorePlatform) (env : Environment) (id : ℕ) (name sha : Bytes) (w : IndexWorld)
    → (load_at p env id name sha w).1 ≡ next_call w
unfolding load_at
load_at-stays p env id name sha w = elim (Directory-cases (w.directories id)) [
  | inl (inl e) ↦ rw (load_at, e) refl
  | inl (inr e) ↦ rw (load_at, e) refl
  | inr (files, e) ↦ elim (Bool-cases (env.is_readable w.tick)) [
    | inr b ↦ rw (load_at, e, b) refl
    | inl b ↦ elim (Result-cases (load_segment p name id sha files)) [
      | inl (x, z) ↦ rw (load_at, e, b, z) refl
      | inr (g, z) ↦ rw (load_at, e, b, z) refl
    ]
  ]
]

pub load_at-eq-ok :
    (p : StorePlatform) (env : Environment) (id : ℕ) (name sha : Bytes) (w : IndexWorld)
    (g : LoadedSegment)
    → (load_at p env id name sha w).0 ≡ ok g
    → (files : SegmentFiles) × (w.directories id ≡ complete files)
      × (load_segment p name id sha files ≡ ok g)
unfolding load_at
load_at-eq-ok p env id name sha w g h = elim (Directory-cases (w.directories id)) [
  | inl (inl e) ↦ let k = rw (load_at, e) at h in cc
  | inl (inr e) ↦ let k = rw (load_at, e) at h in cc
  | inr (files, e) ↦ elim (Bool-cases (env.is_readable w.tick)) [
    | inr b ↦ let k = rw (load_at, e, b) at h in cc
    | inl b ↦ elim (Result-cases (load_segment p name id sha files)) [
      | inl (x, z) ↦ let k = rw (load_at, e, b, z) at h in cc
      | inr (x, z) ↦
          let same = ok-injective (rw (load_at, e, b, z) at h) in
          let again : load_segment p name id sha files ≡ ok g = z ∙ ap (λ y. ok y) same in
          (files, e, again)
    ]
  ]
]

pub load_unpublished-IsStored :
    (p : StorePlatform) (env : Environment) (id : ℕ) (w : IndexWorld) (g : LoadedSegment)
    → (load_unpublished p env id w).0 ≡ ok g
    → IsStored p id g.manifest_sha256 w × (g.segment_name ≡ segment_name_of id)
unfolding load_unpublished
load_unpublished-IsStored p env id w g h =
    let (files, stored, loads) = load_at-eq-ok p env id (segment_name_of id) [] w g h in
    let (named, again) = load_segment-HasDigest p (segment_name_of id) id files g loads in
    (record { files = files; segment = g; stored = stored; loads = again }, named)

pub build_segment-Idle :
    (p : StorePlatform) (env : Environment) (d : ParsedBatchDescriptor) (w : IndexWorld)
    → NotReady w d.batch_id
    → Idle d.batch_id w (build_segment p env d w).1
unfolding build_segment
build_segment-Idle p env d w h =
    let after = λ (left : Directory).
      Idle-next_call d.batch_id w (set_directory d.batch_id left w)
        (set_directory-Idle d.batch_id left w h) in
    elim (Writing-cases (env.write w.tick d)) [
      | inl (left, e) ↦ rw (build_segment, e) (after left)
      | inr (files, e) ↦
          elim (Result-cases (
            load_segment p (segment_name_of d.batch_id) d.batch_id (p.sha256_hex files.manifest)
              files)) [
                | inl (x, z) ↦ rw (build_segment, e, z) (after absent)
                | inr (g, z) ↦ rw (build_segment, e, z) (after (complete files))
              ]
    ]

pub build_segment-IsStored :
    (p : StorePlatform) (env : Environment) (d : ParsedBatchDescriptor) (w : IndexWorld)
    (sha : Bytes)
    → (build_segment p env d w).0 ≡ ok sha
    → IsStored p d.batch_id sha (build_segment p env d w).1
unfolding build_segment set_directory next_call
build_segment-IsStored p env d w sha h = elim (Writing-cases (env.write w.tick d)) [
  | inl (left, e) ↦ let k = rw (build_segment, e) at h in cc
  | inr (files, e) ↦
      elim (Result-cases (
        load_segment p (segment_name_of d.batch_id) d.batch_id (p.sha256_hex files.manifest)
          files)) [
            | inl (x, z) ↦ let k = rw (build_segment, e, z) at h in cc
            | inr (g, z) ↦
                let same = ok-injective (rw (build_segment, e, z) at h) in
                rw (build_segment, e, z)
                  (subst
                    (λ s.
                      IsStored p d.batch_id s
                        (next_call (set_directory d.batch_id (complete files) w)))
                    same
                    (record {
                      files = files;
                      segment = g;
                      stored = rw (eq_refl d.batch_id) refl;
                      loads = z;
                    }))
          ]
]
