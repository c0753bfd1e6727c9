-- ===== src/Index/Snapshot/Lookup.antt =====
-- What `findDocument` finds, said without the order of the segments and the early exits.
use work_smt.Base.{
  refl, ◌==◌, ltb, Bool-cases, Option-cases, ◌%◌, get_elem?, arith, inr, subst, some, ◌⊎◌, ◌/◌, inl,
  [], ◌≡◌, ◌<◌, ◌∷◌, List, ℕ,
}
use work_smt.Index.Snapshot.{find_from, local_ids, candidate}
use work_smt.Index.Segments.{SegmentFileRecord, SegmentDocumentRecord, LoadedSegment}

abbrev pub Increasing : ℕ → List LoadedSegment → Type 0
Increasing previous [] = Unit
Increasing previous (g ∷ rest) = (previous < g.batch_id) × Increasing g.batch_id rest

abbrev pub Among : LoadedSegment → List LoadedSegment → Type 0
Among g [] = ⊥
Among g (x ∷ rest) = (x ≡ g) ⊎ Among g rest

-- The segment of the id's batch has the document at the id's local place, and its file.
pub record Holds (g : LoadedSegment) (doc_id : ℕ) (d : SegmentDocumentRecord)
    (f : SegmentFileRecord) : Type 0 where
  pub batch : g.batch_id ≡ doc_id / local_ids
  pub place : get_elem? g.documents (doc_id % local_ids) ≡ some d
  pub identity : d.doc_id ≡ doc_id
  pub source : get_elem? g.files d.file_ordinal ≡ some f

Increasing-Among :
    (previous : ℕ) (g : LoadedSegment) (gs : List LoadedSegment)
    → Increasing previous gs
    → Among g gs
    → previous < g.batch_id
Increasing-Among previous g [] h k = absurd k
Increasing-Among previous g (x ∷ gs) h (inl e) = subst (λ y. previous < y.batch_id) e h.0
Increasing-Among previous g (x ∷ gs) h (inr k) =
    omega (arith, h.0, Increasing-Among x.batch_id g gs h.1 k)

Holds-candidate :
    (doc_id : ℕ) (g : LoadedSegment) (d : SegmentDocumentRecord) (f : SegmentFileRecord)
    → Holds g doc_id d f
    → candidate doc_id g ≡ some (d, f)
unfolding candidate
Holds-candidate doc_id g d f h =
    let i = h.identity in let p = h.place in let q = h.source in ground (arith)

candidate-Holds :
    (doc_id : ℕ) (g : LoadedSegment) (d : SegmentDocumentRecord) (f : SegmentFileRecord)
    → g.batch_id ≡ doc_id / local_ids
    → candidate doc_id g ≡ some (d, f)
    → Holds g doc_id d f
unfolding candidate
candidate-Holds doc_id g d f b h =
    elim (Option-cases (get_elem? g.documents (doc_id % local_ids))) [
      | inl e ↦ cc
      | inr (x, e) ↦ elim (Bool-cases (x.doc_id == doc_id)) [
        | inl i ↦ elim (Option-cases (get_elem? g.files x.file_ordinal)) [
          | inl q ↦ cc
          | inr (y, q) ↦ record { batch = b; place = cc; identity = ground arith; source = cc }
        ]
        | inr i ↦ cc
      ]
    ]

pub find_from-finds :
    (previous doc_id : ℕ) (g : LoadedSegment) (gs : List LoadedSegment) (d : SegmentDocumentRecord)
    (f : SegmentFileRecord)
    → Increasing previous gs
    → Among g gs
    → Holds g doc_id d f
    → find_from doc_id gs ≡ some (d, f)
unfolding find_from
find_from-finds previous doc_id g [] d f i k h = absurd k
find_from-finds previous doc_id g (x ∷ gs) d f i (inl e) h =
    let b = h.batch in let c = Holds-candidate doc_id g d f h in ground (arith)
find_from-finds previous doc_id g (x ∷ gs) d f i (inr k) h =
    let b = h.batch in
    let l = Increasing-Among x.batch_id g gs i.1 k in
    let r = find_from-finds x.batch_id doc_id g gs d f i.1 k h in ground (arith)

pub find_from-Holds :
    (doc_id : ℕ) (gs : List LoadedSegment) (d : SegmentDocumentRecord) (f : SegmentFileRecord)
    → find_from doc_id gs ≡ some (d, f)
    → (g : LoadedSegment) × Among g gs × Holds g doc_id d f
unfolding find_from
find_from-Holds doc_id [] d f h = cc
find_from-Holds doc_id (x ∷ gs) d f h = elim (Bool-cases (ltb x.batch_id (doc_id / local_ids))) [
  | inl e ↦ let (g, k, t) = find_from-Holds doc_id gs d f (ground arith) in (g, inr k, t)
  | inr e ↦ elim (Bool-cases (ltb (doc_id / local_ids) x.batch_id)) [
    | inl l ↦ ground arith
    | inr l ↦ (x, inl refl, candidate-Holds doc_id x d f (ground arith) (ground arith))
  ]
]
