-- ===== src/Manager/Directories/Names.antt =====
-- The names of segments.
use work_smt.Base.{
  refl, ◌∷◌, ◌/◌, inr, ◌-◌, ◌%◌, ◌∙◌, [], ◌+◌, inl, sym, ltb, drop, ap, Bool-cases, ◌≤◌, arith, ◌≡◌,
  zero, ◌^◌, ◌*◌, ◌<◌, suc, ℕ,
}
use work_smt.Upload.Numbers.{decimal}
use work_smt.Base.Bytes.{Bytes}
use work_smt.Manager.Directories.{digits_from, segment_name_of}

abbrev tens : ℕ → ℕ
tens zero = 1
tens (suc k) = 10 * tens k

decimal-digits_from :
    (fuel n : ℕ) (digits : Bytes)
    → n < tens fuel
    → decimal 0 (digits_from fuel n digits) ≡ decimal n digits
unfolding digits_from
decimal-digits_from zero n digits h = let z : n ≡ 0 = omega (arith, h) in rw z refl
decimal-digits_from (suc fuel) n digits h = elim (Bool-cases (ltb n 10)) [
  | inl e ↦
      let small : 0 * 10 + ((b'0' + n % 10) - b'0') ≡ n = ground arith in
      rw (digits_from, e) (ap (λ m. decimal m digits) small)
  | inr e ↦
      let low : n / 10 < tens fuel = omega (arith, h) in
      let whole : n / 10 * 10 + ((b'0' + n % 10) - b'0') ≡ n = omega arith in
      rw (digits_from, e)
        (decimal-digits_from fuel (n / 10) ((b'0' + n % 10) ∷ digits) low
          ∙ ap (λ m. decimal m digits) whole)
]

-- Twenty digits are enough for every batch id of 64 bits: two such batches whose segments have the
-- same name are the same batch.
pub segment_name_of-injective :
    (a b : ℕ) → a < 2 ^ 64 → b < 2 ^ 64 → segment_name_of a ≡ segment_name_of b → a ≡ b
unfolding segment_name_of
segment_name_of-injective a b h k e =
    let enough : 2 ^ 64 ≤ tens 20 = omega arith in
    let digits = ap (drop 8) e in
    sym (decimal-digits_from 20 a [] (omega (arith, h, enough)))
    ∙ ap (decimal 0) digits
    ∙ decimal-digits_from 20 b [] (omega (arith, k, enough))
