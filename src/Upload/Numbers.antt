-- ===== src/Upload/Numbers.antt =====
-- 01_SMT_DataStream/src/upload/upload_model.cpp: `parseUnsigned`, the reading of a decimal number into
-- 64 bits, and what it means for a text to be one.
use work_smt.Base.{
  ◌/◌, inl, refl, ltb, inr, true_ne_false, ◌%◌, none, [], false, ◌↔◌, ◌-◌, ◌+◌, is_empty,
  Bool-cases, some, true, arith, within, ◌*◌, if◌then◌else◌, ◌≡◌, Bool, ◌≤◌, All, ◌∷◌, Option, ℕ,
}
use work_smt.Base.Bytes.{Bytes}

-- `UINT64_MAX`, and the modulus of the wrap-around.
abbrev pub uint64_max : ℕ
uint64_max = 18446744073709551615

abbrev pub uint64_size : ℕ
uint64_size = 18446744073709551616

unfoldable pub is_digit : ℕ → Bool
is_digit c = within b'0' b'9' c

-- The loop from `parsed` on; `none` is the result false.
unfoldable pub parse_digits : ℕ → Bytes → Option ℕ
parse_digits parsed [] = some parsed
parse_digits parsed (c ∷ cs) = elim (is_digit c) [
  | false ↦ none
  | true ↦ elim (ltb ((uint64_max - (c - b'0')) / 10) parsed) [
    | true ↦ none
    | false ↦ parse_digits ((parsed * 10 + (c - b'0')) % uint64_size) cs
  ]
]

unfoldable pub parse_unsigned : Bytes → Option ℕ
parse_unsigned value = if is_empty value then none else parse_digits 0 value

-- The number that the digits mean, after the digits of `n`.
abbrev pub decimal : ℕ → Bytes → ℕ
decimal n [] = n
decimal n (c ∷ cs) = decimal (n * 10 + (c - b'0')) cs

le-decimal : (n : ℕ) (cs : Bytes) → n ≤ decimal n cs
le-decimal n [] = omega arith
le-decimal n (c ∷ cs) = omega (arith, le-decimal (n * 10 + (c - b'0')) cs)

-- All bytes are digits, and the number is `r`, which fits in 64 bits.
abbrev pub Means : ℕ → Bytes → ℕ → Type 0
Means n cs r = All (λ c. is_digit c ≡ true) cs × (decimal n cs ≡ r) × (r ≤ uint64_max)

parse_digits-Means :
    (n : ℕ) (cs : Bytes) (r : ℕ) → n ≤ uint64_max → parse_digits n cs ≡ some r → Means n cs r
unfolding parse_digits is_digit
parse_digits-Means n [] r h e = ground arith
parse_digits-Means n (c ∷ cs) r h e = elim (Bool-cases (is_digit c)) [
  | inr d ↦ ground arith
  | inl d ↦ elim (Bool-cases (ltb ((uint64_max - (c - b'0')) / 10) n)) [
    | inl l ↦ ground arith
    | inr l ↦
        let digit = c - b'0' in
        let small : digit ≤ 9 = ground arith in
        let fits : n * 10 + digit ≤ uint64_max = ground arith in
        let same : (n * 10 + digit) % uint64_size ≡ n * 10 + digit = omega arith in
        let rest : parse_digits (n * 10 + digit) cs ≡ some r = ground arith in
        let (a, b, m) = parse_digits-Means (n * 10 + digit) cs r fits rest in ((d, a), b, m)
  ]
]

Means-parse_digits :
    (n : ℕ) (cs : Bytes) (r : ℕ) → n ≤ uint64_max → Means n cs r → parse_digits n cs ≡ some r
unfolding parse_digits is_digit
Means-parse_digits n [] r h m = ground arith
Means-parse_digits n (c ∷ cs) r h m =
    let digit = c - b'0' in
    let (ds, value, bound) = m in
    let d : is_digit c ≡ true = ds.0 in
    let small : digit ≤ 9 = ground arith in
    let grows = le-decimal (n * 10 + digit) cs in
    let fits : n * 10 + digit ≤ uint64_max = omega arith in
    let same : (n * 10 + digit) % uint64_size ≡ n * 10 + digit = omega arith in
    let l : ltb ((uint64_max - digit) / 10) n ≡ false = ground arith in
    let rest = Means-parse_digits (n * 10 + digit) cs r fits (ds.1, value, bound) in
    rw (parse_digits, d, l, same) rest

-- `parseUnsigned` accepts a text exactly when it is not empty, all its bytes are decimal digits and
-- the number they mean is at most `UINT64_MAX`, and then it returns that number: the overflow test
-- refuses no number that fits, and no wrap-around happens.
pub parse_unsigned_iff :
    (value : Bytes) (r : ℕ)
    → (parse_unsigned value ≡ some r) ↔ ((is_empty value ≡ false) × Means 0 value r)
unfolding parse_unsigned
parse_unsigned_iff [] r = (λ h. cc, λ h. absurd (true_ne_false h.0))
parse_unsigned_iff (c ∷ cs) r = (
  λ h. (refl, parse_digits-Means 0 (c ∷ cs) r (omega arith) h),
  λ h. Means-parse_digits 0 (c ∷ cs) r (omega arith) h.1,
)
