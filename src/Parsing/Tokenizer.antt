-- ===== src/Parsing/Tokenizer.antt =====
-- 02_SMT_LogTrace/src/indexing/term_tokenizer.cpp.
pub mod Laws
pub mod RoundTrip
use work_smt.Base.{
  false, true, leb, ◌+◌, ◌==◌, ◌++◌, [], ◌||◌, ◌-◌, ◌∷◌, is_empty, List, within, if◌then◌else◌,
  Bool, ℕ,
}
use work_smt.Base.Bytes.{Bytes}

unfoldable pub is_term_character : ℕ → Bool
is_term_character value =
    within b'a' b'z' value
    || within b'A' b'Z' value
    || within b'0' b'9' value
    || value == b'_'
    || value == b'-'
    || leb 0x80 value

unfoldable pub to_lower : ℕ → ℕ
to_lower value = if within b'A' b'Z' value then value - b'A' + b'a' else value

-- `if (!current.empty()) terms.push_back(current)`.
unfoldable pub push_term : Bytes → List Bytes → List Bytes
push_term current terms = if is_empty current then terms else terms ++ (current ∷ [])

unfoldable pub tokenize_from : Bytes → List Bytes → Bytes → List Bytes
tokenize_from current terms [] = push_term current terms
tokenize_from current terms (value ∷ text) = elim (is_term_character value) [
  | true ↦ tokenize_from (current ++ to_lower value ∷ []) terms text
  | false ↦ tokenize_from [] (push_term current terms) text
]

unfoldable pub tokenize_terms : Bytes → List Bytes
tokenize_terms = tokenize_from [] []
