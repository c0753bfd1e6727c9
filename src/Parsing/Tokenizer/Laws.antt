-- ===== src/Parsing/Tokenizer/Laws.antt =====
-- The terms of a text against a description of them that has no loop.
use work_smt.Base.{
  All-append, map-append, subst₂, append_assoc, ap, inr, ◌∙◌, refl, inl, Bool-cases, append-nil,
  sym, map, ◌∷◌, ℕ, false, true, ◌++◌, [], ◌≡◌, List, All, is_empty,
}
use work_smt.Parsing.Tokenizer.{
  tokenize_terms, is_term_character, to_lower, push_term, tokenize_from,
}
use work_smt.Base.Bytes.{Bytes}

abbrev pub IsWord : Bytes → Type 0
IsWord w = (is_empty w ≡ false) × All (λ c. is_term_character c ≡ true) w

-- The terms of a text: its longest runs of term characters, in lower case and in order.
pub data Terms : Bytes → List Bytes → Type 0 where
  nothing : Terms [] []
  skip :
      (c : ℕ) (text : Bytes) {ts : List Bytes}
      → is_term_character c ≡ false
      → Terms text ts
      → Terms (c ∷ text) ts
  last : (w : Bytes) → IsWord w → Terms w (map to_lower w ∷ [])
  word :
      (w : Bytes) (c : ℕ) (text : Bytes) {ts : List Bytes}
      → IsWord w
      → is_term_character c ≡ false
      → Terms text ts
      → Terms (w ++ c ∷ text) (map to_lower w ∷ ts)

push_term-append :
    (current : Bytes) (terms : List Bytes) → push_term current terms ≡ terms ++ push_term current []
unfolding push_term
push_term-append [] terms = sym (append-nil terms)
push_term-append (c ∷ current) terms = refl

-- The terms found so far stay in front.
pub tokenize_from-append :
    (text current : Bytes) (terms : List Bytes)
    → tokenize_from current terms text ≡ terms ++ tokenize_from current [] text
unfolding tokenize_from
tokenize_from-append [] current terms = push_term-append current terms
tokenize_from-append (c ∷ text) current terms = elim (Bool-cases (is_term_character c)) [
  | inl t ↦ rw (tokenize_from, t) (tokenize_from-append text (current ++ to_lower c ∷ []) terms)
  | inr f ↦
      rw (tokenize_from, f)
        (tokenize_from-append text [] (push_term current terms)
          ∙ ap (λ ts. ts ++ tokenize_from [] [] text) (push_term-append current terms)
          ∙ append_assoc terms (push_term current []) (tokenize_from [] [] text)
          ∙ ap (◌++◌ terms) (sym (tokenize_from-append text [] (push_term current []))))
]

tokenize_from-step :
    (c : ℕ) (text current : Bytes) (terms : List Bytes)
    → is_term_character c ≡ true
    → tokenize_from current terms (c ∷ text) ≡ tokenize_from (current ++ to_lower c ∷ []) terms text
unfolding tokenize_from
tokenize_from-step c text current terms h = rw (tokenize_from, h)

-- A run of term characters is appended to the current term in lower case.
pub tokenize_from_word :
    (w rest current : Bytes)
    → All (λ c. is_term_character c ≡ true) w
    → tokenize_from current [] (w ++ rest) ≡ tokenize_from (current ++ map to_lower w) [] rest
tokenize_from_word [] rest current h = rw append-nil
tokenize_from_word (c ∷ w) rest current h =
    tokenize_from-step c (w ++ rest) current [] h.0
    ∙ tokenize_from_word w rest (current ++ to_lower c ∷ []) h.1
    ∙ ap (λ x. tokenize_from x [] rest) (append_assoc current (to_lower c ∷ []) (map to_lower w))

separator-Terms :
    (w : Bytes) (c : ℕ) (text : Bytes)
    → All (λ x. is_term_character x ≡ true) w
    → is_term_character c ≡ false
    → Terms text (tokenize_from [] [] text)
    → Terms (w ++ c ∷ text) (tokenize_from [] (push_term (map to_lower w) []) text)
unfolding push_term
separator-Terms [] c text h f rest = skip c text f rest
separator-Terms (x ∷ w) c text h f rest =
    rw (tokenize_from-append text [] (map to_lower (x ∷ w) ∷ []))
      (word (x ∷ w) c text (refl, h) f rest)

tokenize_from-Terms :
    (text w : Bytes)
    → All (λ c. is_term_character c ≡ true) w
    → Terms (w ++ text) (tokenize_from (map to_lower w) [] text)
unfolding tokenize_from push_term
tokenize_from-Terms [] [] h = nothing
tokenize_from-Terms [] (x ∷ w) h = rw append-nil (last (x ∷ w) (refl, h))
tokenize_from-Terms (c ∷ text) w h = elim (Bool-cases (is_term_character c)) [
  | inl t ↦
      rw (tokenize_from, t)
        (subst₂ (λ a b. Terms a (tokenize_from b [] text)) (append_assoc w (c ∷ []) text)
          (map-append to_lower w (c ∷ []))
          (tokenize_from-Terms text (w ++ c ∷ [])
            (All-append (λ x. is_term_character x ≡ true) w (c ∷ []) h (t, tt))))
  | inr f ↦ rw (tokenize_from, f) (separator-Terms w c text h f (tokenize_from-Terms text [] tt))
]

-- The terms of a text are its maximal runs of term characters, in order and in lower case.
pub tokenize_terms-Terms : (text : Bytes) → Terms text (tokenize_terms text)
unfolding tokenize_terms
tokenize_terms-Terms text = tokenize_from-Terms text [] tt
