-- ===== src/Store/Files/RoundTrip.antt =====
-- Files are loaded as they were written.
use work_smt.Store.Codec.Reads.{
  Reads-read_bytes, append_records-eq-ok, Reads-end, Reads-string, Reads-accept, Reads-uint64,
  Reads-last, Reads-header, Reads-bind, load_all-Reads, Reads,
}
use work_smt.Store.Codec.Words.{pack_hex-pairs}
use work_smt.Store.Codec.{
  pack_hex, StoreError, all_hex, append_records, record_invalid, append_string, ◌>>>◌, valid_sha256,
  bytes_to_sha256, append_sha256_bytes,
}
use work_smt.Base.Results.{Result, ok-injective, >>=-eq-ok, ok}
use work_smt.Base.{
  inl, arith, inr, ◌&&◌, ◌==◌, Bool-cases, refl, suc, subst, true, [], ◌^◌, ◌<◌, length, ◌≡◌, ◌∷◌,
  ℕ, List,
}
use work_smt.Base.Bytes.{codes, Bytes}
use work_smt.Store.Files.{
  valid_file, serialize_files, read_file, read_files, read_sha256, file_bytes, load_files,
}
use work_smt.Index.Segments.{SegmentFileRecord}

-- The words have 64 bits and the record passes the checks of the loader after the files `seen`.
abbrev pub AreWritableFiles : List ℕ → List SegmentFileRecord → Type 0
AreWritableFiles seen [] = Unit
AreWritableFiles seen (f ∷ fs) =
    ((f.archive_id < 2 ^ 64) × (f.file_size < 2 ^ 64) × (valid_file seen f ≡ true))
    × AreWritableFiles (f.archive_id ∷ seen) fs

Reads-sha256 :
    (hex bytes : Bytes) → append_sha256_bytes hex ≡ ok bytes → Reads read_sha256 bytes hex
unfolding append_sha256_bytes read_sha256 bytes_to_sha256 valid_sha256 ◌>>>◌
Reads-sha256 hex bytes h = elim (Bool-cases (length hex == 64 && all_hex hex)) [
  | inr e ↦ ground arith
  | inl e ↦
      let w : ◌≡◌ {A = Result StoreError Bytes} (ok (pack_hex hex)) (ok bytes) = ground arith in
      let (back, l) = pack_hex-pairs 32 hex (ground arith) (ground arith) in
      let r = (Reads-read_bytes 32 (pack_hex hex) l).at in
      let t : (length (pack_hex hex) == 32) ≡ true = ground arith in
      subst (λ z. Reads read_sha256 z hex) (ok-injective w)
        (record { at = λ rest. rw (read_sha256, r rest, t, back) refl })
]

Reads-file :
    (seen : List ℕ) (f : SegmentFileRecord) (bytes : Bytes)
    → file_bytes f ≡ ok bytes
    → f.archive_id < 2 ^ 64
    → f.file_size < 2 ^ 64
    → valid_file seen f ≡ true
    → Reads (read_file seen) bytes f
unfolding file_bytes read_file
Reads-file seen f bytes h a s v =
    let (sha, e, k) = >>=-eq-ok (append_sha256_bytes f.file_sha256) _ h in
    let (path, e₂, k₂) = >>=-eq-ok (append_string f.relative_path) _ k in
    subst (λ z. Reads (read_file seen) z f) (ok-injective k₂)
      (Reads-bind _ (Reads-uint64 f.archive_id a) (
        Reads-bind _ (Reads-uint64 f.file_size s) (
          Reads-bind _ (Reads-sha256 f.file_sha256 sha e) (
            Reads-accept (λ (p : Bytes). valid_file seen (record f { relative_path = p }))
              record_invalid (λ (p : Bytes). record f { relative_path = p })
              (Reads-string f.relative_path path e₂) v))))

Reads-files :
    (seen : List ℕ) (fs : List SegmentFileRecord) (bytes : Bytes)
    → append_records file_bytes fs ≡ ok bytes
    → AreWritableFiles seen fs
    → Reads (read_files seen (length fs)) bytes fs
unfolding read_files
Reads-files seen [] bytes h w = Reads-end _ h
Reads-files seen (f ∷ fs) bytes h ((a, s, v), w) =
    let (x, y, e, e₂, k) = append_records-eq-ok file_bytes f fs h in
    subst (λ z. Reads (read_files seen (suc (length fs))) z (f ∷ fs)) k
      (Reads-bind _ (Reads-file seen f x e a s v)
        (Reads-last (λ gs. f ∷ gs) (Reads-files (f.archive_id ∷ seen) fs y e₂ w)))

-- When the files of a segment can be written, have words of 64 bits and pass the checks of the
-- loader, then the loader returns them from what was written.
pub load_files-serialize_files :
    (fs : List SegmentFileRecord) (content : Bytes)
    → length fs < 2 ^ 64
    → AreWritableFiles [] fs
    → serialize_files fs ≡ ok content
    → load_files content (length fs) ≡ ok fs
unfolding load_files serialize_files
load_files-serialize_files fs content l w h =
    let (records, e, k) = >>=-eq-ok (append_records file_bytes fs) _ h in
    subst (λ z. load_files z (length fs) ≡ ok fs) (ok-injective k)
      (load_all-Reads (
        Reads-bind _ (Reads-header (codes "LTFIL001") (length fs) refl l)
          (Reads-files [] fs records e w)))
