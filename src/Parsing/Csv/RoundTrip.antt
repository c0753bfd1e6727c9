-- ===== src/Parsing/Csv/RoundTrip.antt =====
-- Rows written in the usual way are read back.
use work_smt.Base.{
  inr, ==_iff, sym, true_ne_false, ◌∙◌, ap, false, inl, map, Bool-cases, some, is_empty, refl,
  append_assoc, ◌==◌, append-nil, arith, [], ◌≡◌, if◌then◌else◌, ◌++◌, ◌∷◌, ◌≢◌, ℕ, List, All,
}
use work_smt.Parsing.Csv.{parse_csv_row, CsvMode, bare, quoted, quote_closed, parse_csv_from}
use work_smt.Base.Bytes.{Bytes}

-- A field as it is written: bare, or between quotes with each quote doubled.
pub data Cell : Type 0 where
  plain : Bytes → Cell
  enclosed : Bytes → Cell

abbrev pub content : Cell → Bytes
content (plain f) = f
content (enclosed f) = f

pub escape : Bytes → Bytes
escape [] = []
escape (c ∷ cs) = if c == b'"' then b'"' ∷ b'"' ∷ escape cs else c ∷ escape cs

pub write_cell : Cell → Bytes
write_cell (plain f) = f
write_cell (enclosed f) = b'"' ∷ (escape f ++ b'"' ∷ [])

pub write_row : List Cell → Bytes
write_row [] = []
write_row (c ∷ []) = write_cell c
write_row (c ∷ d ∷ cs) = write_cell c ++ b',' ∷ write_row (d ∷ cs)

-- A bare field holds no comma and no quote.
abbrev pub IsWritable : Cell → Type 0
IsWritable (plain f) = All (λ c. (c ≢ b',') × (c ≢ b'"')) f
IsWritable (enclosed f) = Unit

-- The end of the row, or the comma before the next field.
abbrev Follows : Bytes → Type 0
Follows [] = Unit
Follows (c ∷ cs) = c ≡ b','

bare_run :
    (f field : Bytes) (fields : List Bytes) (rest : Bytes)
    → All (λ c. (c ≢ b',') × (c ≢ b'"')) f
    → parse_csv_from bare field fields (f ++ rest) ≡ parse_csv_from bare (field ++ f) fields rest
unfolding parse_csv_from
bare_run [] field fields rest h = rw append-nil
bare_run (c ∷ f) field fields rest h =
    ground (arith, bare_run f (field ++ c ∷ []) fields rest h.1, append_assoc field (c ∷ []) f)

closing :
    (field : Bytes) (fields : List Bytes) (rest : Bytes)
    → Follows rest
    → parse_csv_from quoted field fields (b'"' ∷ rest)
      ≡ parse_csv_from quote_closed field fields rest
unfolding parse_csv_from
closing field fields [] h = refl
closing field fields (c ∷ rest) h = ground arith

quoted_step :
    (c : ℕ) (field : Bytes) (fields : List Bytes) (rest : Bytes)
    → c ≢ b'"'
    → is_empty rest ≡ false
    → parse_csv_from quoted field fields (c ∷ rest)
      ≡ parse_csv_from quoted (field ++ c ∷ []) fields rest
unfolding parse_csv_from
quoted_step c field fields [] h e = absurd (true_ne_false e)
quoted_step c field fields (x ∷ rest) h e = ground arith

quoted_quote :
    (field : Bytes) (fields : List Bytes) (rest : Bytes)
    → parse_csv_from quoted field fields (b'"' ∷ b'"' ∷ rest)
      ≡ parse_csv_from quoted (field ++ b'"' ∷ []) fields rest
unfolding parse_csv_from
quoted_quote field fields rest = refl

append-is_empty : (xs ys : Bytes) → is_empty ys ≡ false → is_empty (xs ++ ys) ≡ false
append-is_empty [] ys h = h
append-is_empty (x ∷ xs) ys h = refl

-- The body of an enclosed field, up to its closing quote.
quoted_run :
    (f field : Bytes) (fields : List Bytes) (rest : Bytes)
    → Follows rest
    → parse_csv_from quoted field fields (escape f ++ b'"' ∷ rest)
      ≡ parse_csv_from quote_closed (field ++ f) fields rest
unfolding escape
quoted_run [] field fields rest h = rw append-nil (closing field fields rest h)
quoted_run (c ∷ f) field fields rest h = elim (Bool-cases (c == b'"')) [
  | inl quote ↦
      rw (escape, quote)
        (quoted_quote field fields (escape f ++ b'"' ∷ rest)
          ∙ quoted_run f (field ++ b'"' ∷ []) fields rest h
          ∙ ap (λ x. parse_csv_from quote_closed x fields rest)
              (append_assoc field (b'"' ∷ []) f
                ∙ ap (λ x. field ++ x ∷ f) (sym ((==_iff c b'"').0 quote))))
  | inr other ↦
      rw (escape, other)
        (quoted_step c field fields (escape f ++ b'"' ∷ rest) (ground arith)
            (append-is_empty (escape f) (b'"' ∷ rest) refl)
          ∙ quoted_run f (field ++ c ∷ []) fields rest h
          ∙ ap (λ x. parse_csv_from quote_closed x fields rest) (append_assoc field (c ∷ []) f))
]

-- After a written cell the parser stands behind a field.
abbrev Behind : Cell → CsvMode
Behind (plain f) = bare
Behind (enclosed f) = quote_closed

opening :
    (fields : List Bytes) (rest : Bytes)
    → parse_csv_from bare [] fields (b'"' ∷ rest) ≡ parse_csv_from quoted [] fields rest
unfolding parse_csv_from
opening fields rest = refl

cell_run :
    (c : Cell) (fields : List Bytes) (rest : Bytes)
    → IsWritable c
    → Follows rest
    → parse_csv_from bare [] fields (write_cell c ++ rest)
      ≡ parse_csv_from (Behind c) (content c) fields rest
unfolding write_cell
cell_run (plain f) fields rest w h = bare_run f [] fields rest w
cell_run (enclosed f) fields rest w h =
    opening fields ((escape f ++ b'"' ∷ []) ++ rest)
    ∙ ap (parse_csv_from quoted [] fields) (append_assoc (escape f) (b'"' ∷ []) rest)
    ∙ quoted_run f [] fields rest h

behind_end :
    (c : Cell) (fields : List Bytes)
    → parse_csv_from (Behind c) (content c) fields [] ≡ some (fields ++ content c ∷ [])
unfolding parse_csv_from
behind_end (plain f) fields = refl
behind_end (enclosed f) fields = refl

behind_comma :
    (c : Cell) (fields : List Bytes) (rest : Bytes)
    → parse_csv_from (Behind c) (content c) fields (b',' ∷ rest)
      ≡ parse_csv_from bare [] (fields ++ content c ∷ []) rest
unfolding parse_csv_from
behind_comma (plain f) fields rest = refl
behind_comma (enclosed f) fields rest = refl

row_run :
    (c : Cell) (cs : List Cell) (fields : List Bytes)
    → All IsWritable (c ∷ cs)
    → parse_csv_from bare [] fields (write_row (c ∷ cs)) ≡ some (fields ++ map content (c ∷ cs))
unfolding write_row
row_run c [] fields w =
    ap (parse_csv_from bare [] fields) (sym (append-nil (write_cell c)))
    ∙ cell_run c fields [] w.0 tt
    ∙ behind_end c fields
row_run c (d ∷ cs) fields w =
    cell_run c fields (b',' ∷ write_row (d ∷ cs)) w.0 refl
    ∙ behind_comma c fields (write_row (d ∷ cs))
    ∙ row_run d cs (fields ++ content c ∷ []) w.1
    ∙ ap some (append_assoc fields (content c ∷ []) (map content (d ∷ cs)))

-- A row of at least one field, each written bare or between quotes with its quotes doubled, is
-- read back as the contents of its fields, whatever bytes the enclosed fields hold.
pub parse_csv_row-write_row :
    (c : Cell) (cs : List Cell)
    → All IsWritable (c ∷ cs)
    → parse_csv_row (write_row (c ∷ cs)) ≡ some (map content (c ∷ cs))
unfolding parse_csv_row
parse_csv_row-write_row c cs w = row_run c cs [] w
