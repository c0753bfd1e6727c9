-- ===== src/Manager/Listing.antt =====
-- What the listings of batches give.
use work_smt.Base.{
  length, not, is_empty, zero, ltb, arith, ap, ◌||◌, Bool-cases, ◌∙◌, All-imp, sym, [], inr, suc,
  subst, ◌==◌, inl, ◌≤◌, Option-cases, All, refl, false, ◌∷◌, some, true, List, ℕ, ◌≡◌,
}
use work_smt.Manager.Frames.{NotReady, Local}
use work_smt.Manager.{
  BatchRow, ParsedBatchDescriptor, IndexWorld, BatchState, parsing, building, parsed, failed, ready,
}
use work_smt.Manager.Repository.{descriptor_of, same_state, first_row, select_rows}
use mathlib.Core.Option.{some-injective}

building-not_ready : (s : BatchState) → same_state s building ≡ true → same_state s ready ≡ false
unfolding same_state
building-not_ready parsing h = cc
building-not_ready parsed h = cc
building-not_ready building h = refl
building-not_ready ready h = cc
building-not_ready failed h = cc

parsed-not_ready : (s : BatchState) → same_state s parsed ≡ true → same_state s ready ≡ false
unfolding same_state
parsed-not_ready parsing h = cc
parsed-not_ready parsed h = refl
parsed-not_ready building h = cc
parsed-not_ready ready h = cc
parsed-not_ready failed h = cc

descriptor_of-batch_id :
    (id : ℕ) (r : BatchRow) (d : ParsedBatchDescriptor)
    → descriptor_of id r ≡ some d
    → d.batch_id ≡ id
unfolding descriptor_of
descriptor_of-batch_id id r d h = elim (Option-cases r.parsed_path) [
  | inl e ↦ let k = rw (descriptor_of, e) at h in cc
  | inr (path, e) ↦ elim (Option-cases r.parsed_sha256) [
    | inl z ↦ let k = rw (descriptor_of, e, z) at h in cc
    | inr (sha, z) ↦
        let k = rw (descriptor_of, e, z) at h in
        elim (Bool-cases (
          id == 0
          || r.first_archive_id == 0
          || ltb r.last_archive_id r.first_archive_id
          || r.source_file_count == 0
          || r.document_count == 0
          || is_empty path
          || not (length sha == 64))) [
            | inl b ↦ let c = rw b at k in cc
            | inr b ↦
                sym
                  (ap (λ (x : ParsedBatchDescriptor). x.batch_id) (some-injective _ d (rw b at k)))
          ]
  ]
]

listed-NotReady :
    (w : IndexWorld) (id : ℕ) (r : BatchRow)
    → w.batches id ≡ some r
    → same_state r.state ready ≡ false
    → NotReady w id
listed-NotReady w id r e h s k =
    subst (λ (z : BatchRow). same_state z.state ready ≡ false) (some-injective r s (sym e ∙ k)) h

-- Each of the batches is another than the ones before it, and not READY.
abbrev pub Pending : IndexWorld → List ParsedBatchDescriptor → Type 0
Pending w [] = Unit {0}
Pending w (d ∷ ds) =
    NotReady w d.batch_id × All (λ e. (e.batch_id == d.batch_id) ≡ false) ds × Pending w ds

pub Pending-Local :
    (w v : IndexWorld) (id : ℕ) (ds : List ParsedBatchDescriptor)
    → Local id w v
    → All (λ e. (e.batch_id == id) ≡ false) ds
    → Pending w ds
    → Pending v ds
Pending-Local w v id [] l a h = tt
Pending-Local w v id (d ∷ ds) l a h =
    let (n, others, rest) = h in
    (λ r e. n r (sym (l.rows d.batch_id a.0) ∙ e), others, Pending-Local w v id ds l a.1 rest)

pub select_rows-Pending :
    (w : IndexWorld) (id n : ℕ) (ds : List ParsedBatchDescriptor)
    → select_rows w.batches building descriptor_of id n ≡ some ds
    → Pending w ds × All (λ d. id ≤ d.batch_id) ds
unfolding select_rows
select_rows-Pending w id zero ds h =
    subst (λ z. Pending w z × All (λ d. id ≤ d.batch_id) z) (some-injective [] ds h) (tt, tt)
select_rows-Pending w id (suc n) ds h =
    let rest = select_rows w.batches building descriptor_of (suc id) n in
    let skipped : (rest ≡ some ds) → (Pending w ds × All (λ d. id ≤ d.batch_id) ds) = λ k.
      let (a, b) = select_rows-Pending w (suc id) n ds k in
      (
        a,
        All-imp (λ d. suc id ≤ d.batch_id) (λ d. id ≤ d.batch_id) ds (λ d x. omega (arith, x)) b,
      ) in
    elim (Option-cases (w.batches id)) [
      | inl e ↦ skipped (rw (select_rows, e) at h)
      | inr (r, e) ↦ elim (Bool-cases (same_state r.state building)) [
        | inr b ↦ skipped (rw (select_rows, e, b) at h)
        | inl b ↦ elim (Option-cases (descriptor_of id r)) [
          | inl z ↦ let k = rw (select_rows, e, b, z) at h in cc
          | inr (d, z) ↦ elim (Option-cases rest) [
            | inl y ↦ let k = rw (select_rows, e, b, z, y) at h in cc
            | inr (more, y) ↦
                let (p, above) = select_rows-Pending w (suc id) n more y in
                let same = descriptor_of-batch_id id r d z in
                let pending =
                  subst (NotReady w) (sym same)
                    (listed-NotReady w id r e (building-not_ready r.state b)) in
                subst (λ x. Pending w x × All (λ d. id ≤ d.batch_id) x)
                  (some-injective (d ∷ more) ds (rw (select_rows, e, b, z, y) at h))
                  (
                    (
                      pending,
                      All-imp (λ c. suc id ≤ c.batch_id) (λ c. (c.batch_id == d.batch_id) ≡ false)
                          more (λ c x. ground (arith, same)) above,
                      p,
                    ),
                    (
                      omega (arith, same),
                      All-imp (λ c. suc id ≤ c.batch_id) (λ c. id ≤ c.batch_id) more
                          (λ c x. omega (arith, x)) above,
                    ),
                  )
          ]
        ]
      ]
    ]

pub first_row-NotReady :
    (w : IndexWorld) (id n : ℕ) (d : ParsedBatchDescriptor)
    → first_row w.batches parsed descriptor_of id n ≡ some (some d)
    → NotReady w d.batch_id
unfolding first_row
first_row-NotReady w id zero d h = cc
first_row-NotReady w id (suc n) d h = elim (Option-cases (w.batches id)) [
  | inl e ↦ first_row-NotReady w (suc id) n d (rw (first_row, e) at h)
  | inr (r, e) ↦ elim (Bool-cases (same_state r.state parsed)) [
    | inr b ↦ first_row-NotReady w (suc id) n d (rw (first_row, e, b) at h)
    | inl b ↦ elim (Option-cases (descriptor_of id r)) [
      | inl z ↦ let k = rw (first_row, e, b, z) at h in cc
      | inr (c, z) ↦
          let same =
            some-injective c d (some-injective (some c) (some d) (rw (first_row, e, b, z) at h)) in
          let here = listed-NotReady w id r e (parsed-not_ready r.state b) in
          subst (NotReady w)
            (sym (descriptor_of-batch_id id r c z)
              ∙ ap (λ (x : ParsedBatchDescriptor). x.batch_id) same)
            here
    ]
  ]
]
