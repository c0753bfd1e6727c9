-- ===== src/Index/Original/Exact.antt =====
-- The bytes that are read are those of the range.
use work_smt.Base.{
  length-append, ltb→lt, ◌<◌, inl, inr, ◌==◌, Bool-cases, true, ltb, some, zero, ◌∙◌, All, refl,
  false, ap₂, ap, arith, sym, ◌-◌, [], suc, is_empty, ◌+◌, ◌≡◌, take, length, ◌≤◌, ◌∷◌, ◌++◌, drop,
  List, ℕ,
}
use work_smt.Index.Segments.{SegmentFileRecord}
use work_smt.Index.Original.{
  breaks, off_max, returned, interrupts, min, close_after, delivers, invalid_range, read_original,
  pread_loop, Attempt,
}
use work_smt.Base.Bytes.{Bytes}

take-length_take : (n : ℕ) (xs : Bytes) → take (length (take n xs)) xs ≡ take n xs
take-length_take zero xs = refl
take-length_take (suc n) [] = refl
take-length_take (suc n) (x ∷ xs) = ap (◌∷◌ x) (take-length_take n xs)

abbrev no_bytes : Bytes
no_bytes = []

take_nil : (n : ℕ) → take n no_bytes ≡ no_bytes
take_nil zero = refl
take_nil (suc n) = refl

drop_nil : (n : ℕ) → drop n no_bytes ≡ no_bytes
drop_nil zero = refl
drop_nil (suc n) = refl

take-add : (m n : ℕ) (xs : Bytes) → take m xs ++ take n (drop m xs) ≡ take (m + n) xs
take-add zero n xs = ap (λ k. take k xs) (omega arith)
take-add (suc m) n [] = take_nil n ∙ sym (take_nil (suc m + n))
take-add (suc m) n (x ∷ xs) =
    let e : suc (m + n) ≡ suc m + n = omega arith in
    ap (◌∷◌ x) (take-add m n xs) ∙ ap (λ k. take k (x ∷ xs)) e

drop-add : (m n : ℕ) (xs : Bytes) → drop (m + n) xs ≡ drop n (drop m xs)
drop-add zero n xs = ap (λ k. drop k xs) (omega arith)
drop-add (suc m) n [] = drop_nil (suc m + n) ∙ sym (drop_nil n)
drop-add (suc m) n (x ∷ xs) =
    let e : suc m + n ≡ suc (m + n) = omega arith in ap (λ k. drop k (x ∷ xs)) e ∙ drop-add m n xs

length-take : (n : ℕ) (xs : Bytes) → length (take n xs) ≡ min n (length xs)
length-take zero xs = omega arith
length-take (suc n) [] = omega arith
length-take (suc n) (x ∷ xs) = omega (arith, length-take n xs)

length-drop : (n : ℕ) (xs : Bytes) → length (drop n xs) ≡ length xs - n
length-drop zero xs = omega arith
length-drop (suc n) [] = omega arith
length-drop (suc n) (x ∷ xs) = omega (arith, length-drop n xs)

-- The bytes read so far are the first bytes of the range.
abbrev IsPrefix : Bytes → ℕ → Bytes → Type 0
IsPrefix file offset content = content ≡ take (length content) (drop offset file)

IsPrefix-append :
    (file : Bytes) (offset n : ℕ) (content : Bytes)
    → IsPrefix file offset content
    → IsPrefix file offset (content ++ take n (drop (offset + length content) file))
IsPrefix-append file offset n content h =
    let m = length content in
    let ys = drop offset file in
    let e : content ++ take n (drop (offset + m) file) ≡ take (m + n) ys =
      ap₂ (◌++◌) h (ap (take n) (drop-add offset m file)) ∙ take-add m n ys in
    e ∙ sym (take-length_take (m + n) ys) ∙ ap (λ z. take (length z) ys) (sym e)

-- How many attempts deliver bytes.
abbrev pub deliveries : List Attempt → ℕ
deliveries [] = 0
deliveries (delivers n ∷ attempts) = suc (deliveries attempts)
deliveries (interrupts ∷ attempts) = deliveries attempts
deliveries (breaks ∷ attempts) = deliveries attempts

-- No attempt fails, and one that is not interrupted delivers a byte at least.
abbrev pub Works : Attempt → Type 0
Works (delivers n) = 1 ≤ n
Works interrupts = Unit
Works breaks = ⊥

whole :
    (file : Bytes) (offset size : ℕ) (content : Bytes)
    → IsPrefix file offset content
    → length content ≤ size
    → size ≤ length content
    → returned content ≡ returned (take size (drop offset file))
whole file offset size content p l d =
    ap returned (p ∙ ap (λ z. take z (drop offset file)) (omega arith))

is_empty_of_length : (xs : Bytes) → 1 ≤ length xs → is_empty xs ≡ false
is_empty_of_length [] h = absurd (omega (arith, h))
is_empty_of_length (x ∷ xs) h = refl

pread_loop-reads :
    (file : Bytes) (offset size : ℕ) (content : Bytes) (attempts : List Attempt)
    → IsPrefix file offset content
    → length content ≤ size
    → offset + size ≤ length file
    → length file ≤ off_max
    → All Works attempts
    → size ≤ length content + deliveries attempts
    → pread_loop file offset size content attempts ≡ returned (take size (drop offset file))
unfolding pread_loop
pread_loop-reads file offset size content [] p l r o w d =
    let b : ltb (length content) size ≡ false = ground arith in
    rw (pread_loop, b) (whole file offset size content p l (omega (arith, d)))
pread_loop-reads file offset size content (interrupts ∷ rest) p l r o w d =
    elim (Bool-cases (ltb (length content) size)) [
      | inr b ↦ rw (pread_loop, b) (whole file offset size content p l (ground arith))
      | inl b ↦
          let c : ltb off_max (offset + length content) ≡ false = ground arith in
          rw (pread_loop, b, c) (pread_loop-reads file offset size content rest p l r o w.1 d)
    ]
pread_loop-reads file offset size content (breaks ∷ rest) p l r o w d = absurd w.0
pread_loop-reads file offset size content (delivers n ∷ rest) p l r o w d =
    elim (Bool-cases (ltb (length content) size)) [
      | inr b ↦ rw (pread_loop, b) (whole file offset size content p l (ground arith))
      | inl b ↦
          let c : ltb off_max (offset + length content) ≡ false = ground arith in
          let less : length content < size = ltb→lt (length content) size b in
          let k = min n (size - length content) in
          let part = take k (drop (offset + length content) file) in
          let some_n : 1 ≤ n = w.0 in
          let bytes : length part ≡ min k (length file - (offset + length content)) =
            length-take k (drop (offset + length content) file)
            ∙ ap (min k) (length-drop (offset + length content) file) in
          let least : 1 ≤ length part = omega arith in
          let sum = length-append content part in
          let e = is_empty_of_length part least in
          rw (pread_loop, b, c, e)
            (pread_loop-reads file offset size (content ++ part) rest
              (IsPrefix-append file offset k content p) (omega arith) r o w.1 (omega (arith, d)))
    ]

-- When the range is not empty and inside of the file, the opened file has the recorded size, no
-- `pread` fails, each that is not interrupted delivers a byte at least, there are as many of these as
-- the range has bytes, and `close` succeeds, then the reading ends and returns exactly the bytes of
-- the file in the range, however the system cuts them into pieces and interrupts the calls.
pub read_original-reads :
    (record_file : SegmentFileRecord) (offset size : ℕ) (file : Bytes) (attempts : List Attempt)
    → 1 ≤ size
    → offset + size ≤ record_file.file_size
    → length file ≡ record_file.file_size
    → length file ≤ off_max
    → All Works attempts
    → size ≤ deliveries attempts
    → read_original record_file offset size (some (length file)) file attempts true
      ≡ returned (take size (drop offset file))
unfolding read_original invalid_range close_after
read_original-reads record_file offset size file attempts s i e o w d =
    let v : invalid_range record_file.file_size offset size ≡ false = ground arith in
    let t : (length file == record_file.file_size) ≡ true = ground arith in
    rw
      (
        read_original,
        v,
        t,
        pread_loop-reads file offset size [] attempts refl (omega arith) (omega (arith, e)) o w
            (omega (arith, d)),
      )
      refl
