-- ===== src/Parsing/Utf8/Accepts.antt =====
-- `validUtf8` accepts exactly the well-formed texts.
use work_smt.Base.{
  [], subst, ◌⊎◌, leb, Bool-cases, subst₂, ◌≤◌, ◌↔◌, zero, ◌∙◌, inr, ◌+◌, ◌%◌, inl, false, refl,
  Option-cases, arith, ◌*◌, ◌-◌, suc, some, true, ◌∷◌, ◌<◌, ◌≡◌, length, ℕ,
}
use work_smt.Parsing.Utf8.Grammar.{
  is_tail_sound, is_tail_complete, refused_four, lead_four, refused_three, lead_three, refused_two,
  lead_two, is_tail, IsTail, WellFormed,
}
use work_smt.Base.Bytes.{Bytes}
use work_smt.Parsing.Utf8.{lead, read_continuation, is_refused, valid_utf8_from, valid_utf8}

-- One round of the loop on a character above 0x7F.
round :
    (fuel a : ℕ) (t : Bytes) (n cp d : ℕ) (rest : Bytes)
    → 0x7F < a
    → lead a ≡ some (n, cp)
    → read_continuation (n - 1) cp t ≡ some (d, rest)
    → is_refused n d ≡ false
    → valid_utf8_from (suc fuel) (a ∷ t) ≡ valid_utf8_from fuel rest
unfolding valid_utf8_from
round fuel a t n cp d rest above l r ok = ground (arith, above, l, r, ok)

record Round (fuel a : ℕ) (t : Bytes) : Type 0 where
  size : ℕ
  first_bits : ℕ
  decoded : ℕ
  rest : Bytes
  leads : lead a ≡ some (size, first_bits)
  reads : read_continuation (size - 1) first_bits t ≡ some (decoded, rest)
  admits : is_refused size decoded ≡ false
  goes_on : valid_utf8_from fuel rest ≡ true

Round-true :
    (fuel a : ℕ) (t : Bytes) → 0x7F < a → valid_utf8_from (suc fuel) (a ∷ t) ≡ true → Round fuel a t
unfolding valid_utf8_from
Round-true fuel a t above h = elim (Option-cases (lead a)) [
  | inl l ↦ absurd (ground (arith, l))
  | inr ((n, cp), l) ↦ elim (Option-cases (read_continuation (n - 1) cp t)) [
    | inl r ↦ absurd (ground (arith, l, r))
    | inr ((d, rest), r) ↦ record {
      size = n;
      first_bits = cp;
      decoded = d;
      rest = rest;
      leads = l;
      reads = r;
      admits = ground (arith, l, r);
      goes_on = ground (arith, l, r);
    }
  ]
]

read_tail :
    (n cp b : ℕ) (t : Bytes)
    → IsTail b
    → read_continuation (suc n) cp (b ∷ t) ≡ read_continuation n (cp * 64 + b % 64) t
unfolding read_continuation is_tail
read_tail n cp b t h = ground (arith, is_tail_complete b h)

-- A round that reads `n + 1` more bytes reads a tail byte first.
record FirstTail (n cp : ℕ) (t : Bytes) (r : ℕ × Bytes) : Type 0 where
  byte : ℕ
  behind : Bytes
  splits : t ≡ byte ∷ behind
  tail : IsTail byte
  reads : read_continuation n (cp * 64 + byte % 64) behind ≡ some r

FirstTail-some :
    (n cp : ℕ) (t : Bytes) (r : ℕ × Bytes)
    → read_continuation (suc n) cp t ≡ some r
    → FirstTail n cp t r
unfolding read_continuation is_tail
FirstTail-some n cp [] r h = absurd (cc)
FirstTail-some n cp (b ∷ t) r h = elim (Bool-cases (is_tail b)) [
  | inl yes' ↦ record {
    byte = b;
    behind = t;
    splits = refl;
    tail = is_tail_sound b yes';
    reads = ground (arith, yes');
  }
  | inr no' ↦ absurd (ground (arith, no'))
]

read_none : (cp : ℕ) (t : Bytes) → read_continuation 0 cp t ≡ some (cp, t)
unfolding read_continuation
read_none cp t = refl

complete :
    (fuel : ℕ) {text : Bytes}
    → WellFormed text
    → length text < fuel
    → valid_utf8_from fuel text ≡ true
unfolding valid_utf8_from
complete zero w h = elim h [ ]
complete (suc fuel) WellFormed.end h = refl
complete (suc fuel) (WellFormed.one a t p w) h = ground (arith, complete fuel w (omega arith))
complete (suc fuel) (WellFormed.two a b t p q tb w) h =
    round fuel a (b ∷ t) 2 (a % 32) (a % 32 * 64 + b % 64) t (omega arith) (lead_two a p q)
      (read_tail 0 (a % 32) b t tb ∙ read_none _ t) (refused_two a b p q tb)
    ∙ complete fuel w (omega arith)
complete (suc fuel) (WellFormed.three a b c t p q tb tc x y w) h =
    round fuel a (b ∷ c ∷ t) 3 (a % 16) ((a % 16 * 64 + b % 64) * 64 + c % 64) t (omega arith)
      (lead_three a p q) (read_tail 1 (a % 16) b (c ∷ t) tb ∙ read_tail 0 _ c t tc ∙ read_none _ t)
      ((refused_three a b c p q tb tc).1 (x, y))
    ∙ complete fuel w (omega arith)
complete (suc fuel) (WellFormed.four a b c d t p q tb tc td x y w) h =
    round fuel a (b ∷ c ∷ d ∷ t) 4 (a % 8) (((a % 8 * 64 + b % 64) * 64 + c % 64) * 64 + d % 64) t
      (omega arith) (lead_four a p q)
      (read_tail 2 (a % 8) b (c ∷ d ∷ t) tb
        ∙ read_tail 1 _ c (d ∷ t) tc
        ∙ read_tail 0 _ d t td
        ∙ read_none _ t)
      ((refused_four a b c d p q tb tc td).1 (x, y))
    ∙ complete fuel w (omega arith)

-- Nothing is left to read.
read_none-some :
    (cp : ℕ) (t : Bytes) (d : ℕ) (rest : Bytes)
    → read_continuation 0 cp t ≡ some (d, rest)
    → (cp ≡ d) × (t ≡ rest)
unfolding read_continuation
read_none-some cp t d rest h = ground arith

abbrev LeadCases : ℕ → ℕ → ℕ → Type 0
LeadCases a n cp =
    ((n ≡ 2) × (cp ≡ a % 32) × (0xC2 ≤ a) × (a ≤ 0xDF))
    ⊎ (((n ≡ 3) × (cp ≡ a % 16) × (0xE0 ≤ a) × (a ≤ 0xEF))
        ⊎ ((n ≡ 4) × (cp ≡ a % 8) × (0xF0 ≤ a) × (a ≤ 0xF4)))

lead_cases : (a n cp : ℕ) → lead a ≡ some (n, cp) → LeadCases a n cp
unfolding lead
lead_cases a n cp h = ground arith

module _ (a : ℕ) (t : Bytes) (d : ℕ) (rest : Bytes) (w : WellFormed rest) where
  from_two :
      0xC2 ≤ a → a ≤ 0xDF → read_continuation 1 (a % 32) t ≡ some (d, rest) → WellFormed (a ∷ t)
  from_two p q h =
      let f = FirstTail-some 0 (a % 32) t (d, rest) h in
      let (e, e') = read_none-some _ f.behind d rest f.reads in
      rw f.splits (WellFormed.two a f.byte f.behind p q f.tail (rw e' w))

  from_three :
      0xE0 ≤ a
      → a ≤ 0xEF
      → read_continuation 2 (a % 16) t ≡ some (d, rest)
      → is_refused 3 d ≡ false
      → WellFormed (a ∷ t)
  from_three p q h ok =
      let f = FirstTail-some 1 (a % 16) t (d, rest) h in
      let g = FirstTail-some 0 _ f.behind (d, rest) f.reads in
      let (e, e') = read_none-some _ g.behind d rest g.reads in
      let (low, high) = (refused_three a f.byte g.byte p q f.tail g.tail).0 (rw e ok) in
      rw (f.splits, g.splits)
        (WellFormed.three a f.byte g.byte g.behind p q f.tail g.tail low high (rw e' w))

  from_four :
      0xF0 ≤ a
      → a ≤ 0xF4
      → read_continuation 3 (a % 8) t ≡ some (d, rest)
      → is_refused 4 d ≡ false
      → WellFormed (a ∷ t)
  from_four p q h ok =
      let f = FirstTail-some 2 (a % 8) t (d, rest) h in
      let g = FirstTail-some 1 _ f.behind (d, rest) f.reads in
      let k = FirstTail-some 0 _ g.behind (d, rest) g.reads in
      let (e, e') = read_none-some _ k.behind d rest k.reads in
      let (low, high) =
        (refused_four a f.byte g.byte k.byte p q f.tail g.tail k.tail).0 (rw e ok) in
      rw (f.splits, g.splits, k.splits)
        (WellFormed.four a f.byte g.byte k.byte k.behind p q f.tail g.tail k.tail low high
          (rw e' w))

from_round :
    (a : ℕ) (t : Bytes) (n cp d : ℕ) (rest : Bytes)
    → LeadCases a n cp
    → read_continuation (n - 1) cp t ≡ some (d, rest)
    → is_refused n d ≡ false
    → WellFormed rest
    → WellFormed (a ∷ t)
from_round a t n cp d rest (inl (e, e', p, q)) h ok w =
    from_two a t d rest w p q
      (subst₂ (λ n' c. read_continuation (n' - 1) c t ≡ some (d, rest)) e e' h)
from_round a t n cp d rest (inr (inl (e, e', p, q))) h ok w =
    from_three a t d rest w p q
      (subst₂ (λ n' c. read_continuation (n' - 1) c t ≡ some (d, rest)) e e' h)
      (subst (λ n'. is_refused n' d ≡ false) e ok)
from_round a t n cp d rest (inr (inr (e, e', p, q))) h ok w =
    from_four a t d rest w p q
      (subst₂ (λ n' c. read_continuation (n' - 1) c t ≡ some (d, rest)) e e' h)
      (subst (λ n'. is_refused n' d ≡ false) e ok)

sound : (fuel : ℕ) (text : Bytes) → valid_utf8_from fuel text ≡ true → WellFormed text
unfolding valid_utf8_from
sound zero text h = absurd (cc)
sound (suc fuel) [] h = WellFormed.end
sound (suc fuel) (a ∷ t) h = elim (Bool-cases (leb a 0x7F)) [
  | inl low ↦ WellFormed.one a t (ground arith) (sound fuel t (ground (arith, low)))
  | inr high ↦
      let r = Round-true fuel a t (ground arith) h in
      from_round a t r.size r.first_bits r.decoded r.rest (lead_cases a r.size r.first_bits r.leads)
        r.reads r.admits (sound fuel r.rest r.goes_on)
]

-- The validator accepts a text exactly when it is well-formed UTF-8: shortest forms, no surrogate
-- and no code point above U+10FFFF.
pub valid_utf8_iff_WellFormed : (text : Bytes) → (valid_utf8 text ≡ true) ↔ WellFormed text
unfolding valid_utf8
valid_utf8_iff_WellFormed text =
    (sound (suc (length text)) text, λ w. complete (suc (length text)) w (omega arith))
