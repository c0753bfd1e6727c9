-- ===== src/Store/Codec/Words.antt =====
-- Words, signed numbers and digests are read back as they were written.
use work_smt.Base.{
  ◌%◌, ◌*◌, refl, [], zero, ◌∷◌, ap, ◌/◌, ◌+◌, true, suc, arith, ◌^◌, length, ◌≡◌, ℕ, ◌<◌,
}
use work_smt.Base.Ints.{negsuc, pos, ℤ}
use work_smt.Base.Bytes.{Bytes}
use work_smt.Store.Codec.{
  hex_value, all_hex, unpack_hex, word, hex_digit, is_hex, to_signed, to_unsigned, append_word,
  pack_hex,
}

pub length-append_word : (n v : ℕ) → length (append_word n v) ≡ n
unfolding append_word
length-append_word zero v = refl
length-append_word (suc n) v = ap suc (length-append_word n (v / 256))

pub word-append_word : (n v : ℕ) → v < 256 ^ n → word (append_word n v) ≡ v
unfolding append_word word
word-append_word zero v h = omega arith
word-append_word (suc n) v h =
    let r = word-append_word n (v / 256) (omega arith) in omega (arith, r)

-- A signed number of 64 bits.
abbrev pub IsInt64 : ℤ → Type 0
IsInt64 (pos n) = n < 2 ^ 63
IsInt64 (negsuc n) = n < 2 ^ 63

pub to_signed-to_unsigned : (z : ℤ) → IsInt64 z → to_signed (to_unsigned z) ≡ z
unfolding to_signed to_unsigned
to_signed-to_unsigned (pos n) h = ground arith
to_signed-to_unsigned (negsuc n) h = ground arith

pub to_unsigned-lt : (z : ℤ) → to_unsigned z < 2 ^ 64
unfolding to_unsigned
to_unsigned-lt (pos n) = omega arith
to_unsigned-lt (negsuc n) = omega arith

hex_digit-hex_value : (c : ℕ) → is_hex c ≡ true → (hex_digit (hex_value c) ≡ c) × (hex_value c < 16)
unfolding is_hex hex_digit hex_value
hex_digit-hex_value c h = ground arith

-- How many bytes the digits make.
pub pack_hex-pairs :
    (n : ℕ) (cs : Bytes)
    → length cs ≡ n + n
    → all_hex cs ≡ true
    → (unpack_hex (pack_hex cs) ≡ cs) × (length (pack_hex cs) ≡ n)
unfolding pack_hex unpack_hex all_hex
pack_hex-pairs zero [] l h = (refl, refl)
pack_hex-pairs zero (a ∷ cs) l h = absurd (omega (arith, l))
pack_hex-pairs (suc n) [] l h = absurd (omega (arith, l))
pack_hex-pairs (suc n) (a ∷ []) l h = absurd (omega (arith, l))
pack_hex-pairs (suc n) (a ∷ b ∷ cs) l h =
    let ha : is_hex a ≡ true = ground arith in
    let hb : is_hex b ≡ true = ground arith in
    let (ea, la) = hex_digit-hex_value a ha in
    let (eb, lb) = hex_digit-hex_value b hb in
    let (e, k) = pack_hex-pairs n cs (omega (arith, l)) (ground arith) in
    let high : (16 * hex_value a + hex_value b) % 256 / 16 ≡ hex_value a = omega arith in
    let low : (16 * hex_value a + hex_value b) % 256 % 16 ≡ hex_value b = omega arith in
    (rw (unpack_hex, high, low, ea, eb, e) refl, ap suc k)
