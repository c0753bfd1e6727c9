-- ===== src/Parsing/Tokenizer/RoundTrip.antt =====
-- Terms survive a second tokenization: the query side of the index sees the same terms.
use work_smt.Base.{
  append-nil, sym, ap, true_ne_false, refl, ◌∙◌, [], map, false, arith, All, ◌++◌, ◌∷◌, true, ◌≡◌,
  List, ℕ,
}
use work_smt.Parsing.Tokenizer.Laws.{
  tokenize_from-append, tokenize_terms-Terms, tokenize_from_word, IsWord, Terms,
}
use work_smt.Base.Bytes.{Bytes}
use work_smt.Parsing.Tokenizer.{
  is_term_character, to_lower, push_term, tokenize_from, tokenize_terms,
}

-- A word that is its own lower case.
abbrev pub IsTerm : Bytes → Type 0
IsTerm w = IsWord w × (map to_lower w ≡ w)

-- The terms with one blank between two of them.
pub joined : List Bytes → Bytes
joined [] = []
joined (t ∷ []) = t
joined (t ∷ u ∷ ts) = t ++ b' ' ∷ joined (u ∷ ts)

to_lower-is_term_character :
    (c : ℕ) → is_term_character c ≡ true → is_term_character (to_lower c) ≡ true
unfolding is_term_character to_lower
to_lower-is_term_character c h = ground arith

to_lower_idem : (c : ℕ) → to_lower (to_lower c) ≡ to_lower c
unfolding to_lower
to_lower_idem c = ground arith

map-to_lower_idem : (w : Bytes) → map to_lower (map to_lower w) ≡ map to_lower w
map-to_lower_idem [] = refl
map-to_lower_idem (c ∷ w) = rw (to_lower_idem, map-to_lower_idem w)

All-map-to_lower :
    (w : Bytes)
    → All (λ c. is_term_character c ≡ true) w
    → All (λ c. is_term_character c ≡ true) (map to_lower w)
All-map-to_lower [] h = tt
All-map-to_lower (c ∷ w) h = (to_lower-is_term_character c h.0, All-map-to_lower w h.1)

map-to_lower-IsTerm : (w : Bytes) → IsWord w → IsTerm (map to_lower w)
map-to_lower-IsTerm [] h = absurd (true_ne_false h.0)
map-to_lower-IsTerm (c ∷ w) h = ((refl, All-map-to_lower (c ∷ w) h.1), map-to_lower_idem (c ∷ w))

Terms-IsTerm : {text : Bytes} {ts : List Bytes} → Terms text ts → All IsTerm ts
Terms-IsTerm Terms.nothing = tt
Terms-IsTerm (Terms.skip c text f rest) = Terms-IsTerm rest
Terms-IsTerm (Terms.last w h) = (map-to_lower-IsTerm w h, tt)
Terms-IsTerm (Terms.word w c text h f rest) = (map-to_lower-IsTerm w h, Terms-IsTerm rest)

push_IsTerm : (t : Bytes) → IsTerm t → push_term (map to_lower t) [] ≡ t ∷ []
unfolding push_term
push_IsTerm [] h = absurd (true_ne_false h.0.0)
push_IsTerm (c ∷ t) h = ap (λ x. x ∷ []) h.1

tokenize_terms_last : (t : Bytes) → IsTerm t → tokenize_terms t ≡ t ∷ []
unfolding tokenize_terms tokenize_from
tokenize_terms_last t h =
    ap (tokenize_from [] []) (sym (append-nil t))
    ∙ tokenize_from_word t [] [] h.0.1
    ∙ push_IsTerm t h

blank : is_term_character b' ' ≡ false
unfolding is_term_character
blank = refl

tokenize_terms_cons :
    (t rest : Bytes) → IsTerm t → tokenize_terms (t ++ b' ' ∷ rest) ≡ t ∷ tokenize_terms rest
unfolding tokenize_terms tokenize_from
tokenize_terms_cons t rest h =
    tokenize_from_word t (b' ' ∷ rest) [] h.0.1
    ∙ rw (tokenize_from, blank, push_IsTerm t h) (tokenize_from-append rest [] (t ∷ []))

-- Terms that are joined by blanks are found again, each as it is.
tokenize_terms-joined : (ts : List Bytes) → All IsTerm ts → tokenize_terms (joined ts) ≡ ts
unfolding joined tokenize_terms tokenize_from push_term
tokenize_terms-joined [] h = refl
tokenize_terms-joined (t ∷ []) h = tokenize_terms_last t h.0
tokenize_terms-joined (t ∷ u ∷ ts) h =
    tokenize_terms_cons t (joined (u ∷ ts)) h.0 ∙ ap (◌∷◌ t) (tokenize_terms-joined (u ∷ ts) h.1)

-- The terms of any text are nonempty runs of term characters in lower case, and tokenizing them
-- again, joined by blanks, gives the same terms.
pub tokenize_terms_idem :
    (text : Bytes)
    → All IsTerm (tokenize_terms text)
      × (tokenize_terms (joined (tokenize_terms text)) ≡ tokenize_terms text)
tokenize_terms_idem text =
    let terms = Terms-IsTerm (tokenize_terms-Terms text) in
    (terms, tokenize_terms-joined (tokenize_terms text) terms)
