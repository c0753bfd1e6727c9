-- ===== src/Upload/Request/Accepts.antt =====
-- What an accepted request promises: its chunks cover its file.
use work_smt.Upload.Request.{
  refused, Verdict, metadata_incomplete, business_invalid, is_lower_hex, last_dot, valid_filename,
  accepted, is_smt_identifier, value_invalid, allowed, RequestFields, UploadConfig, check_request,
  one_of, extension_for, chunk_count_of,
}
use work_smt.Base.{
  subst, drop, map, false, inr, inl, ltb, Bool-cases, Option-cases, true, some, Bool, zero, arith,
  ◌%◌, ◌≡◌, ◌<◌, ◌*◌, ◌-◌, ◌+◌, suc, ◌/◌, ◌≤◌, ℕ,
}
use work_smt.Parsing.Tokenizer.{to_lower}
use work_smt.Base.Bytes.{Bytes}
use work_smt.Upload.Numbers.{uint64_size, uint64_max}
use native.Mathlib.Omega.{div_fact, mod_fact}

-- `n` chunks of `size` bytes, the last not empty, hold exactly `total` bytes.
abbrev pub Covers : ℕ → ℕ → ℕ → Type 0
Covers n size total = (1 ≤ n) × ((n - 1) * size < total) × (total ≤ n * size)

times_suc : (p k : ℕ) → suc k * suc p ≡ p * suc k + suc k
times_suc p k = grind arith

zero_times : (k : ℕ) → suc k * 0 ≡ 0
zero_times k = grind arith

bounds-Covers :
    (q k total : ℕ)
    → 1 ≤ total
    → suc k * q ≤ total + k
    → total + k < suc k * q + suc k
    → Covers q (suc k) total
bounds-Covers zero k total low le lt = absurd (omega (arith, le, lt, zero_times k))
bounds-Covers (suc p) k total low le lt =
    let e : suc k * suc p ≡ p * suc k + suc k = times_suc p k in
    (omega arith, grind arith, grind arith)

chunk_count_of-Covers :
    (file_size k : ℕ)
    → 1 ≤ file_size
    → file_size + suc k ≤ uint64_max
    → Covers (chunk_count_of file_size (suc k)) (suc k) file_size
unfolding chunk_count_of
chunk_count_of-Covers file_size k low high =
    let e : ((file_size + suc k) % uint64_size + uint64_max) % uint64_size ≡ file_size + k =
      omega arith in
    let q = (file_size + k) / suc k in
    let m = (file_size + k) % suc k in
    let d : suc k * q + m ≡ file_size + k = div_fact (file_size + k) k in
    let l : m < suc k = mod_fact (file_size + k) k in
    rw (chunk_count_of, e) (bounds-Covers q k file_size low (omega arith) (omega arith))

extension_for-one_of :
    (filename file_type extension : Bytes)
    → extension_for filename file_type ≡ some extension
    → one_of (allowed file_type) extension ≡ true
unfolding extension_for
extension_for-one_of filename file_type extension h = elim (Option-cases (last_dot filename)) [
  | inl e ↦ ground arith
  | inr (dot, e) ↦
      let x = map to_lower (drop (dot + 1) filename) in
      elim (Bool-cases (one_of (allowed file_type) x)) [
        | inl a ↦ ground arith
        | inr a ↦ ground arith
      ]
]

-- What holds of an accepted request with its extension and its chunk count.
pub record IsAccepted (valid_time : Bytes → Bool) (config : UploadConfig) (r : RequestFields)
    (extension : Bytes) (n : ℕ) : Type 0 where
  file_limit : r.file_size ≤ config.max_file_size_bytes
  chunk_limit : r.chunk_size ≤ config.max_chunk_size_bytes
  chunk_least : config.min_chunk_size_bytes ≤ r.chunk_size
  station : is_smt_identifier r.station_id ≡ true
  collector : is_smt_identifier r.collector_id ≡ true
  filename : valid_filename r.original_filename ≡ true
  digest : is_lower_hex r.file_sha256 ≡ true
  time : valid_time r.produced_at ≡ true
  permitted : one_of (allowed r.file_type) extension ≡ true
  business : business_invalid r ≡ false
  metadata : metadata_incomplete r ≡ false
  chunks : Covers n r.chunk_size r.file_size

module _ (valid_time : Bytes → Bool) where
  positive-Covers :
      (file_size chunk_size : ℕ)
      → 1 ≤ file_size
      → 1 ≤ chunk_size
      → file_size + chunk_size ≤ uint64_max
      → Covers (chunk_count_of file_size chunk_size) chunk_size file_size
  positive-Covers file_size zero f c h = absurd (omega arith)
  positive-Covers file_size (suc k) f c h = chunk_count_of-Covers file_size k f h

  abbrev Facts : UploadConfig → RequestFields → Verdict → Type 0
  Facts config r (refused message) = Unit
  Facts config r (accepted extension n) = IsAccepted valid_time config r extension n

  passed :
      (config : UploadConfig) (r : RequestFields) (extension : Bytes)
      → r.file_size ≤ config.max_file_size_bytes
      → r.chunk_size ≤ config.max_chunk_size_bytes
      → value_invalid valid_time config r ≡ false
      → extension_for r.original_filename r.file_type ≡ some extension
      → business_invalid r ≡ false
      → metadata_incomplete r ≡ false
      → 1 ≤ config.min_chunk_size_bytes
      → config.max_file_size_bytes + config.max_chunk_size_bytes ≤ uint64_max
      → IsAccepted valid_time config r extension (chunk_count_of r.file_size r.chunk_size)
  unfolding value_invalid
  passed config r extension file chunk c e f g least limits =
      let low : config.min_chunk_size_bytes ≤ r.chunk_size = ground arith in
      let some_file : 1 ≤ r.file_size = ground arith in
      record {
        file_limit = file;
        chunk_limit = chunk;
        chunk_least = low;
        station = ground arith;
        collector = ground arith;
        filename = ground arith;
        digest = ground arith;
        time = ground arith;
        permitted = extension_for-one_of r.original_filename r.file_type extension e;
        business = f;
        metadata = g;
        chunks = positive-Covers r.file_size r.chunk_size some_file (omega arith) (omega arith);
      }

  -- When the configured least chunk size is above 0 and the configured limits of a file and of a
  -- chunk add up to at most `UINT64_MAX`, an accepted request is within the limits, has valid
  -- identifiers, file name, digest and time, an extension that its file type allows and complete
  -- metadata; and its chunk count is above 0, with all chunks but the last shorter than the file in
  -- total and all chunks together at least as long: the computation does not wrap around.
  pub check_request-IsAccepted :
      (config : UploadConfig) (r : RequestFields) (extension : Bytes) (n : ℕ)
      → 1 ≤ config.min_chunk_size_bytes
      → config.max_file_size_bytes + config.max_chunk_size_bytes ≤ uint64_max
      → check_request valid_time config r ≡ accepted extension n
      → IsAccepted valid_time config r extension n
  unfolding check_request value_invalid
  check_request-IsAccepted config r extension n least limits h =
      elim (Bool-cases (ltb config.max_file_size_bytes r.file_size)) [
        | inl a ↦ ground arith
        | inr a ↦ elim (Bool-cases (ltb config.max_chunk_size_bytes r.chunk_size)) [
          | inl b ↦ ground arith
          | inr b ↦ elim (Bool-cases (value_invalid valid_time config r)) [
            | inl c ↦ ground arith
            | inr c ↦ elim (Option-cases (extension_for r.original_filename r.file_type)) [
              | inl e ↦ ground arith
              | inr (x, e) ↦ elim (Bool-cases (business_invalid r)) [
                | inl f ↦ ground arith
                | inr f ↦ elim (Bool-cases (metadata_incomplete r)) [
                  | inl g ↦ ground arith
                  | inr g ↦
                      let same : accepted x (chunk_count_of r.file_size r.chunk_size)
                          ≡ accepted extension n =
                        ground arith in
                      subst (Facts config r) same
                        (passed config r x (ground arith) (ground arith) c e f g least limits)
                ]
              ]
            ]
          ]
        ]
      ]
