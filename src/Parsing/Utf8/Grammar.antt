-- ===== src/Parsing/Utf8/Grammar.antt =====
-- The texts that `validUtf8` accepts, against the table of well-formed byte sequences of Unicode.
use work_smt.Base.{
  ◌↔◌, false, ◌+◌, ◌*◌, ◌==◌, arith, ◌%◌, ◌∷◌, true, some, ◌/◌, [], Bool, ◌≡◌, ◌≤◌, ℕ,
}
use work_smt.Parsing.Utf8.{lead, is_refused}
use work_smt.Base.Bytes.{Bytes}

abbrev pub IsTail : ℕ → Type 0
IsTail b = (0x80 ≤ b) × (b ≤ 0xBF)

-- Well-formed UTF-8: shortest forms only, no surrogate, nothing above U+10FFFF.
pub data WellFormed : Bytes → Type 0 where
  end : WellFormed []
  one : (a : ℕ) (t : Bytes) → a ≤ 0x7F → WellFormed t → WellFormed (a ∷ t)
  two :
      (a b : ℕ) (t : Bytes) → 0xC2 ≤ a → a ≤ 0xDF → IsTail b → WellFormed t → WellFormed (a ∷ b ∷ t)
  three :
      (a b c : ℕ) (t : Bytes)
      → 0xE0 ≤ a
      → a ≤ 0xEF
      → IsTail b
      → IsTail c
      → (a ≡ 0xE0 → 0xA0 ≤ b)
      → (a ≡ 0xED → b ≤ 0x9F)
      → WellFormed t
      → WellFormed (a ∷ b ∷ c ∷ t)
  four :
      (a b c d : ℕ) (t : Bytes)
      → 0xF0 ≤ a
      → a ≤ 0xF4
      → IsTail b
      → IsTail c
      → IsTail d
      → (a ≡ 0xF0 → 0x90 ≤ b)
      → (a ≡ 0xF4 → b ≤ 0x8F)
      → WellFormed t
      → WellFormed (a ∷ b ∷ c ∷ d ∷ t)

unfoldable pub is_tail : ℕ → Bool
is_tail b = b / 64 == 2

pub is_tail_sound : (b : ℕ) → is_tail b ≡ true → IsTail b
unfolding is_tail
is_tail_sound b h = ground arith

pub is_tail_complete : (b : ℕ) → IsTail b → is_tail b ≡ true
unfolding is_tail
is_tail_complete b h = ground arith

pub lead_two : (a : ℕ) → 0xC2 ≤ a → a ≤ 0xDF → lead a ≡ some (2, a % 32)
unfolding lead
lead_two a h k = ground arith

pub lead_three : (a : ℕ) → 0xE0 ≤ a → a ≤ 0xEF → lead a ≡ some (3, a % 16)
unfolding lead
lead_three a h k = ground arith

pub lead_four : (a : ℕ) → 0xF0 ≤ a → a ≤ 0xF4 → lead a ≡ some (4, a % 8)
unfolding lead
lead_four a h k = ground arith

pub refused_two :
    (a b : ℕ) → 0xC2 ≤ a → a ≤ 0xDF → IsTail b → is_refused 2 (a % 32 * 64 + b % 64) ≡ false
unfolding is_refused
refused_two a b h k t = ground arith

-- The tests on the code point are the rows of the table.
pub refused_three :
    (a b c : ℕ)
    → 0xE0 ≤ a
    → a ≤ 0xEF
    → IsTail b
    → IsTail c
    → (is_refused 3 ((a % 16 * 64 + b % 64) * 64 + c % 64) ≡ false)
      ↔ ((a ≡ 0xE0 → 0xA0 ≤ b) × (a ≡ 0xED → b ≤ 0x9F))
unfolding is_refused
refused_three a b c h k t u = (λ r. (λ e. ground arith, λ e. ground arith), λ r. ground arith)

pub refused_four :
    (a b c d : ℕ)
    → 0xF0 ≤ a
    → a ≤ 0xF4
    → IsTail b
    → IsTail c
    → IsTail d
    → (is_refused 4 (((a % 8 * 64 + b % 64) * 64 + c % 64) * 64 + d % 64) ≡ false)
      ↔ ((a ≡ 0xF0 → 0x90 ≤ b) × (a ≡ 0xF4 → b ≤ 0x8F))
unfolding is_refused
refused_four a b c d h k t u v = (λ r. (λ e. ground arith, λ e. ground arith), λ r. ground arith)
