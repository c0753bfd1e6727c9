-- ===== src/Parsing/Utf8.antt =====
-- `validUtf8` of 02_SMT_LogTrace/src/indexing/archive_parser.cpp.
-- `first & 0x1F` is `first % 32`, `(next & 0xC0) == 0x80` is `next / 64 == 2` for a byte, and
-- `(codepoint << 6) | (next & 0x3F)` is `codepoint * 64 + next % 64`; the 32-bit word never fills.
pub mod Grammar
pub mod Accepts
use work_smt.Base.{
  [], ◌+◌, zero, ◌*◌, ◌-◌, ◌/◌, ◌||◌, ◌∷◌, ltb, ◌%◌, ◌&&◌, none, leb, true, length, ◌==◌, suc, some,
  false, if◌then◌else◌, Bool, Option, ℕ,
}
use work_smt.Base.Bytes.{Bytes}

-- The length and the first bits of the code point, for a first byte above 0x7F.
unfoldable pub lead : ℕ → Option (ℕ × ℕ)
lead first =
    if leb 0xC2 first && leb first 0xDF
    then some (2, first % 32)
    else if leb 0xE0 first && leb first 0xEF
    then some (3, first % 16)
    else if leb 0xF0 first && leb first 0xF4
    then some (4, first % 8)
    else none

-- The inner loop over `count` continuation bytes: the code point and the bytes behind them. A text
-- that is too short is refused here; the source tests its length first.
unfoldable pub read_continuation : ℕ → ℕ → Bytes → Option (ℕ × Bytes)
read_continuation zero codepoint text = some (codepoint, text)
read_continuation (suc count) codepoint [] = none
read_continuation (suc count) codepoint (next ∷ text) = elim (next / 64 == 2) [
  | true ↦ read_continuation count (codepoint * 64 + next % 64) text
  | false ↦ none
]

unfoldable pub is_refused : ℕ → ℕ → Bool
is_refused length codepoint =
    (length == 3 && ltb codepoint 0x800)
    || (length == 4 && ltb codepoint 0x10000)
    || (leb 0xD800 codepoint && leb codepoint 0xDFFF)
    || ltb 0x10FFFF codepoint

-- The outer loop. Each round takes a byte at least, so a fuel above the length is enough.
unfoldable pub valid_utf8_from : ℕ → Bytes → Bool
valid_utf8_from zero text = false
valid_utf8_from (suc fuel) [] = true
valid_utf8_from (suc fuel) (first ∷ text) = elim (leb first 0x7F) [
  | true ↦ valid_utf8_from fuel text
  | false ↦ elim (lead first) [
    | none ↦ false
    | some (length, codepoint) ↦ elim (read_continuation (length - 1) codepoint text) [
      | none ↦ false
      | some (decoded, rest) ↦ elim (is_refused length decoded) [
        | true ↦ false
        | false ↦ valid_utf8_from fuel rest
      ]
    ]
  ]
]

unfoldable pub valid_utf8 : Bytes → Bool
valid_utf8 value = valid_utf8_from (suc (length value)) value
