-- ===== src/Store/Codec/Reads.antt =====
-- Readings of what was written, whatever follows it.
use work_smt.Store.Codec.{
  append_records, string_limit_exceeded, to_unsigned, header_inconsistent, to_signed, append_word,
  string_limit, word, accept, StoreError, give, append_int64, append_header, append_uint64,
  read_string, finish, append_uint32, Reader, read_bytes, read_uint32, read_int64, require_magic,
  read_uint64, read_header, append_string, ◌>>>◌, load_all,
}
use work_smt.Base.Bytes.{bytes_eq_refl, Bytes}
use work_smt.Store.Codec.Words.{
  to_unsigned-lt, to_signed-to_unsigned, length-append_word, word-append_word, IsInt64,
}
use work_smt.Base.Results.{Result, thrown, ok-injective, >>=-eq-ok, ok}
use work_smt.Base.{
  drop, ◌∙◌, append-nil, drop-append_self, inr, take-append_self, ◌&&◌, sym, inl, refl, ◌==◌, ap,
  Bool-cases, false, take, subst, length-append, ◌%◌, ◌∷◌, true, append_assoc, arith, ltb, ◌≡◌,
  length, ◌^◌, List, [], ◌++◌, if◌then◌else◌, ◌<◌, Bool, ℕ,
}
use work_smt.Base.Ints.{ℤ}

-- The reader gives `a` on the bytes, and leaves what comes after them.
pub record Reads {A : Type 0} (p : Reader A) (bytes : Bytes) (a : A) : Type 0 where
  pub at : (rest : Bytes) → p (bytes ++ rest) ≡ ok (a, rest)

pub Reads-bind :
    {A B : Type 0} {p : Reader A} (f : A → Reader B) {xs ys : Bytes} {a : A} {b : B}
    → Reads p xs a
    → Reads (f a) ys b
    → Reads (p >>> f) (xs ++ ys) b
unfolding ◌>>>◌
Reads-bind f {xs = xs} {ys = ys} h k = record {
  at = λ rest. rw (append_assoc xs ys rest, h.at (ys ++ rest)) (k.at rest);
}

-- The last reading of a chain.
pub Reads-last :
    {A B : Type 0} {p : Reader A} (f : A → B) {xs : Bytes} {a : A}
    → Reads p xs a
    → Reads (p >>> λ x. give (f x)) xs (f a)
unfolding ◌>>>◌
Reads-last f h = record { at = λ rest. rw (h.at rest) refl }

-- The last reading of a chain, with a test on the value.
pub Reads-accept :
    {A B : Type 0} {p : Reader A} (test : A → Bool) (e : StoreError) (f : A → B) {xs : Bytes}
    {a : A}
    → Reads p xs a
    → test a ≡ true
    → Reads (p >>> λ x. accept (test x) e (f x)) xs (f a)
unfolding ◌>>>◌
Reads-accept test e f h t = record { at = λ rest. rw (h.at rest, t) refl }

pub Reads-read_bytes : (n : ℕ) (xs : Bytes) → length xs ≡ n → Reads (read_bytes n) xs xs
unfolding read_bytes
Reads-read_bytes n xs e = record {
  at = λ rest.
      let l = length-append xs rest in
      let b : ltb (length (xs ++ rest)) n ≡ false = ground arith in
      rw (b, ← e, take-append_self xs rest, drop-append_self xs rest) refl;
}

Reads-word :
    (n v : ℕ) → v < 256 ^ n → Reads (read_bytes n >>> λ bs. give (word bs)) (append_word n v) v
Reads-word n v h =
    subst (Reads (read_bytes n >>> λ bs. give (word bs)) (append_word n v)) (word-append_word n v h)
      (Reads-last word (Reads-read_bytes n (append_word n v) (length-append_word n v)))

pub Reads-uint32 : (v : ℕ) → v < 2 ^ 32 → Reads read_uint32 (append_uint32 v) v
unfolding read_uint32 append_uint32
Reads-uint32 v h = let e : v % 2 ^ 32 ≡ v = omega arith in rw e (Reads-word 4 v h)

pub Reads-uint64 : (v : ℕ) → v < 2 ^ 64 → Reads read_uint64 (append_uint64 v) v
unfolding read_uint64 append_uint64
Reads-uint64 v h = let e : v % 2 ^ 64 ≡ v = omega arith in rw e (Reads-word 8 v h)

pub Reads-int64 : (z : ℤ) → IsInt64 z → Reads read_int64 (append_int64 z) z
unfolding read_int64 append_int64
Reads-int64 z h =
    subst (Reads (read_uint64 >>> λ v. give (to_signed v)) (append_uint64 (to_unsigned z)))
      (to_signed-to_unsigned z h)
      (Reads-last to_signed (Reads-uint64 (to_unsigned z) (to_unsigned-lt z)))

-- The reading of a string behind its size.
abbrev read_text : ℕ → Reader Bytes
read_text size rest =
    if ltb string_limit size then thrown string_limit_exceeded else read_bytes size rest

pub Reads-string :
    (value bytes : Bytes) → append_string value ≡ ok bytes → Reads read_string bytes value
unfolding append_string read_string
Reads-string value bytes h = elim (Bool-cases (ltb string_limit (length value))) [
  | inl e ↦ ground arith
  | inr e ↦
      let w : ◌≡◌ {A = Result StoreError Bytes} (ok (append_uint32 (length value) ++ value))
          (ok bytes) =
        ground arith in
      let small : length value < 2 ^ 32 = ground arith in
      let text : Reads (read_text (length value)) value value = record {
        at = λ rest. rw (read_text, e) ((Reads-read_bytes (length value) value refl).at rest);
      } in
      subst (λ b. Reads (read_uint32 >>> read_text) b value) (ok-injective w)
        (Reads-bind _ (Reads-uint32 (length value) small) text)
]

-- The first of several records is written, and then the others.
pub append_records-eq-ok :
    {A : Type 0} (w : A → Result StoreError Bytes) (v : A) (vs : List A) {bytes : Bytes}
    → append_records w (v ∷ vs) ≡ ok bytes
    → (x : Bytes) × (y : Bytes) × (w v ≡ ok x) × (append_records w vs ≡ ok y) × (x ++ y ≡ bytes)
unfolding append_records
append_records-eq-ok w v vs h =
    let (x, e, h₁) = >>=-eq-ok (w v) _ h in
    let (y, e₂, h₂) = >>=-eq-ok (append_records w vs) _ h₁ in (x, y, e, e₂, ok-injective h₂)

-- The first of several strings, and then the rest of the chain on the others.
pub Reads-next :
    {B : Type 0} (f : Bytes → Reader B) (v : Bytes) (vs : List Bytes) {bytes : Bytes} {b : B}
    → append_records append_string (v ∷ vs) ≡ ok bytes
    → ((others : Bytes) → append_records append_string vs ≡ ok others → Reads (f v) others b)
    → Reads (read_string >>> f) bytes b
Reads-next f v vs {b = b} h k =
    let (x, y, e, e₂, s) = append_records-eq-ok append_string v vs h in
    subst (λ z. Reads (read_string >>> f) z b) s (Reads-bind _ (Reads-string v x e) (k y e₂))

pub Reads-end :
    {A B : Type 0} (w : B → Result StoreError Bytes) {a : A} {bytes : Bytes}
    → append_records w [] ≡ ok bytes
    → Reads (give a) bytes a
unfolding append_records
Reads-end w {a = a} h =
    subst (λ z. Reads (give a) z a) (ok-injective h) (record { at = λ rest. refl })

Reads-magic : (magic : Bytes) → length magic ≡ 8 → Reads (require_magic magic) magic tt
unfolding require_magic
Reads-magic magic l = record {
  at = λ rest.
      let n = length-append magic rest in
      let t : take 8 (magic ++ rest) ≡ magic =
        ap (λ k. take k (magic ++ rest)) (sym l) ∙ take-append_self magic rest in
      let d : drop 8 (magic ++ rest) ≡ rest =
        ap (λ k. drop k (magic ++ rest)) (sym l) ∙ drop-append_self magic rest in
      let b : ltb (length (magic ++ rest)) 8 ≡ false = ground arith in
      rw (b, t, d, bytes_eq_refl magic) refl;
}

pub Reads-header :
    (magic : Bytes) (count : ℕ)
    → length magic ≡ 8
    → count < 2 ^ 64
    → Reads (read_header magic count) (append_header magic count) tt
unfolding read_header append_header
Reads-header magic count l h = Reads-bind _ (Reads-magic magic l) (
    Reads-bind _ (Reads-uint32 1 (omega arith)) (
      Reads-accept (λ n. 1 == 1 && n == count) header_inconsistent (λ n. tt) (Reads-uint64 count h)
        (ground arith)))

-- A loading of exactly what was written.
pub load_all-Reads :
    {A : Type 0} {p : Reader A} {bytes : Bytes} {a : A} → Reads p bytes a → load_all p bytes ≡ ok a
unfolding load_all finish
load_all-Reads {p = p} {bytes = bytes} h =
    let e : p bytes ≡ ok (_, []) = ap p (sym (append-nil bytes)) ∙ h.at [] in rw e refl
