-- ===== src/Parsing/Runtime/Fields.antt =====
-- The fields of a runtime line, written and read back.
use work_smt.Base.{
  zero, append_assoc, length-append, ◌<◌, length, All, ◌∙◌, ap, append-nil, sym, none, suc, refl,
  some, arith, false, [], is_empty, ℕ, ◌++◌, ◌≡◌, ◌∷◌, List,
}
use work_smt.Parsing.Runtime.{parse_fields, contains_byte, add_token, split_at, parse_fields_from}
use work_smt.Parsing.Models.{has_field, set_field}
use work_smt.Base.Bytes.{Bytes}

split_at_hit :
    (c : ℕ) (xs ys : Bytes) → contains_byte c xs ≡ false → split_at c (xs ++ c ∷ ys) ≡ (xs, some ys)
unfolding split_at contains_byte
split_at_hit c [] ys h = ground arith
split_at_hit c (x ∷ xs) ys h = ground (arith, split_at_hit c xs ys)

split_at_miss : (c : ℕ) (xs : Bytes) → contains_byte c xs ≡ false → split_at c xs ≡ (xs, none)
unfolding split_at contains_byte
split_at_miss c [] h = refl
split_at_miss c (x ∷ xs) h = ground (arith, split_at_miss c xs)

-- A nonempty key and value with no blank and no equals sign.
pub record IsField (e : Bytes × Bytes) : Type 0 where
  pub key_some : is_empty e.0 ≡ false
  pub value_some : is_empty e.1 ≡ false
  pub key_no_equals : contains_byte b'=' e.0 ≡ false
  pub value_no_equals : contains_byte b'=' e.1 ≡ false
  pub key_no_blank : contains_byte b' ' e.0 ≡ false
  pub value_no_blank : contains_byte b' ' e.1 ≡ false

abbrev pub write_field : Bytes × Bytes → Bytes
write_field e = e.0 ++ b'=' ∷ e.1

pub write_fields : List (Bytes × Bytes) → Bytes
write_fields [] = []
write_fields (e ∷ []) = write_field e
write_fields (e ∷ f ∷ es) = write_field e ++ b' ' ∷ write_fields (f ∷ es)

-- The keys differ from one another and from those before.
abbrev pub IsFresh : List (Bytes × Bytes) → List (Bytes × Bytes) → Type 0
IsFresh before [] = Unit
IsFresh before (e ∷ es) = (has_field e.0 before ≡ false) × IsFresh (before ++ e ∷ []) es

set_field_fresh :
    (k v : Bytes) (m : List (Bytes × Bytes))
    → has_field k m ≡ false
    → set_field k v m ≡ m ++ (k, v) ∷ []
unfolding set_field has_field
set_field_fresh k v [] h = refl
set_field_fresh k v (e ∷ m) h = ground (arith, set_field_fresh k v m)

add_token-write_field :
    (e : Bytes × Bytes) (before : List (Bytes × Bytes))
    → IsField e
    → has_field e.0 before ≡ false
    → add_token (write_field e) before ≡ some (before ++ e ∷ [])
unfolding add_token
add_token-write_field e before w h = ground (
  arith,
  split_at_hit b'=' e.0 e.1 w.key_no_equals,
  set_field_fresh e.0 e.1 before h,
  w.key_some,
  w.value_some,
  w.value_no_equals,
  h,
)

no_blank :
    (xs ys : Bytes)
    → contains_byte b' ' xs ≡ false
    → contains_byte b' ' ys ≡ false
    → contains_byte b' ' (xs ++ b'=' ∷ ys) ≡ false
unfolding contains_byte
no_blank [] ys h k = k
no_blank (x ∷ xs) ys h k = ground (arith, no_blank xs ys)

write_field_some :
    (e : Bytes × Bytes) (rest : Bytes) → (x : ℕ) × (xs : Bytes) × (write_field e ++ rest ≡ x ∷ xs)
write_field_some ([], v) rest = (b'=', v ++ rest, refl)
write_field_some (x ∷ k, v) rest = (x, (k ++ b'=' ∷ v) ++ rest, refl)

-- A round of the loop on a written field that is followed by a blank.
round_blank :
    (fuel : ℕ) (e : Bytes × Bytes) (rest : Bytes) (before : List (Bytes × Bytes))
    → IsField e
    → has_field e.0 before ≡ false
    → parse_fields_from (suc fuel) (write_field e ++ b' ' ∷ rest) before
      ≡ parse_fields_from fuel rest (before ++ e ∷ [])
unfolding parse_fields_from
round_blank fuel e rest before w h =
    let (x, xs, shape) = write_field_some e (b' ' ∷ rest) in
    rw shape (
      ground (
        arith,
        sym shape,
        split_at_hit b' ' (write_field e) rest (no_blank e.0 e.1 w.key_no_blank w.value_no_blank),
        add_token-write_field e before w h,
        ap (split_at b' ') shape,
      ))

round_last :
    (fuel : ℕ) (e : Bytes × Bytes) (before : List (Bytes × Bytes))
    → IsField e
    → has_field e.0 before ≡ false
    → parse_fields_from (suc fuel) (write_field e) before ≡ some (before ++ e ∷ [])
unfolding parse_fields_from
round_last fuel e before w h =
    let (x, xs, shape) = write_field_some e [] in
    let shape' : write_field e ≡ x ∷ xs = sym (append-nil (write_field e)) ∙ shape in
    rw shape' (
      ground (
        arith,
        split_at_miss b' ' (write_field e) (no_blank e.0 e.1 w.key_no_blank w.value_no_blank),
        add_token-write_field e before w h,
        ap (split_at b' ') shape',
      ))

fields_run :
    (es : List (Bytes × Bytes)) (fuel : ℕ) (before : List (Bytes × Bytes))
    → All IsField es
    → IsFresh before es
    → length (write_fields es) < fuel
    → parse_fields_from fuel (write_fields es) before ≡ some (before ++ es)
unfolding write_fields parse_fields_from
fields_run es zero before w f h = elim h [ ]
fields_run [] (suc fuel) before w f h = rw append-nil
fields_run (e ∷ []) (suc fuel) before w f h = round_last fuel e before w.0 f.0
fields_run (e ∷ g ∷ es) (suc fuel) before w f h =
    round_blank fuel e (write_fields (g ∷ es)) before w.0 f.0
    ∙ fields_run (g ∷ es) fuel (before ++ e ∷ []) w.1 f.1
        (omega (arith, h, length-append (write_field e) (b' ' ∷ write_fields (g ∷ es))))
    ∙ ap some (append_assoc before (e ∷ []) (g ∷ es))

-- Fields with distinct keys, each a nonempty key and value without blanks and equals signs, are
-- read back from the line in which they are written, in their order.
pub parse_fields-write_fields :
    (es : List (Bytes × Bytes))
    → All IsField es
    → IsFresh [] es
    → parse_fields (write_fields es) ≡ some es
unfolding parse_fields
parse_fields-write_fields es w f =
    fields_run es (suc (length (write_fields es))) [] w f (omega arith)
